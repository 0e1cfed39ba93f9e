-- ===== src/Tests/Memory/Maps.antt =====
-- The maps of the kernel in memory behave as documented.
use cilion.Base.{
  ◌≢◌, sym, Bool-cases, inl, inr, ℕ, ◌+◌, ◌≡◌, refl, ◌∙◌, ap, Bytes, Option, none, some, Bool, true,
  false, ◌&&◌, ◌==◌, if◌then◌else◌, arith,
}
use cilion.Bpf.Types.{ScionPathEntry, little}
use cilion.Agent.{MapView, IsPathCache}
use cilion.Agent.Isolated.{IsFilledByPuts}
use cilion.Agent.Isolated.Load.{CreatesCaches}
use cilion.Tests.Memory.{
  Memory, policy_at, memory_kernel, memory-IsPolicyMap, handle_eq, objects_or,
}

eq_refl : (n : ℕ) → (n == n) ≡ true
eq_refl n = ground arith

eq-≡ : (a b : ℕ) → (a == b) ≡ true → a ≡ b
eq-≡ a b h = ground arith

handle_eq-≡ : (m n : Option ℕ) → handle_eq m n ≡ true → m ≡ n
handle_eq-≡ none none h = refl
handle_eq-≡ none (some b) h = absurd (cc h)
handle_eq-≡ (some a) none h = absurd (cc h)
handle_eq-≡ (some a) (some b) h = ap some (eq-≡ a b h)

abbrev pub memory_view : (tc xdp : Bytes) → MapView (memory_kernel tc xdp)
memory_view tc xdp = record { policy_at = policy_at; path_at = λ w m j. w.paths m j }

pub memory-IsPathCache :
    (tc xdp : Bytes) → IsPathCache (memory_kernel tc xdp) (memory_view tc xdp) little
memory-IsPathCache tc xdp = record {
  policies = memory-IsPolicyMap tc xdp;
  path_put_ok = λ m policy entry w e j. put_here m j policy entry w;
  path_put_frame = λ m n policy entry w b. refl;
}
  where
    handle_eq_refl : (m : Option ℕ) → handle_eq m m ≡ true
    handle_eq_refl none = refl
    handle_eq_refl (some a) = eq_refl a

    put_here :
        (m : Option ℕ) (j policy : ℕ) (entry : ScionPathEntry) (w : Memory)
        → (if handle_eq m m && (j == policy) then some entry else w.paths m j)
          ≡ (if j == policy then some entry else w.paths m j)
    put_here m j policy entry w =
        ap (λ b. if b && (j == policy) then some entry else w.paths m j) (handle_eq_refl m)

pub memory-CreatesCaches :
    (tc xdp : Bytes) → CreatesCaches (memory_kernel tc xdp) (memory_view tc xdp)
unfolding objects_or
memory-CreatesCaches tc xdp = record {
  cache_made = λ p w o e. (w.next + 2, sym (ap (λ r. (objects_or o r).scion_path_cache) e));
  cache_empty = λ p w o e j.
      ap (λ (m : Option ℕ). if handle_eq m (some (w.next + 2)) then none else w.paths m j)
        (sym (ap (λ r. (objects_or o r).scion_path_cache) e))
      ∙ ap (λ b. if b then none else w.paths (some (w.next + 2)) j) (eq_refl (w.next + 2));
}

pub memory-IsFilledByPuts :
    (tc xdp : Bytes) → IsFilledByPuts (memory_kernel tc xdp) (memory_view tc xdp)
memory-IsFilledByPuts tc xdp = record {
  close_keeps = λ m c w h. h;
  fd_keeps = λ m c w h. h;
  policy_keeps = λ m n key value w h. h;
  path_keeps =
      λ m n policy entry w other h j. elsewhere m n (j == policy) entry (w.paths m j) other (h j);
  delete_keeps = λ m n key w h j. still (handle_eq m n && (j == key)) (w.paths m j) (h j);
  link_keeps = λ m name w h. h;
  qdisc_keeps = λ m q w h. h;
  filter_keeps = λ m f w h. h;
  list_keeps = λ m index parent w h. h;
  filter_del_keeps = λ m f w h. h;
  attach_keeps = λ m c index w h. h;
}
  where
    still : (b : Bool) (o : Option ScionPathEntry) → o ≡ none → (if b then none else o) ≡ none
    still true o h = refl
    still false o h = h

    elsewhere :
        (m n : Option ℕ) (b : Bool) (entry : ScionPathEntry) (o : Option ScionPathEntry)
        → n ≢ m
        → o ≡ none
        → (if handle_eq m n && b then some entry else o) ≡ none
    elsewhere m n b entry o other h = elim (Bool-cases (handle_eq m n)) [
      | inl same ↦ absurd (other (sym (handle_eq-≡ m n same)))
      | inr ne ↦ ap (λ c. if c && b then some entry else o) ne ∙ h
    ]
