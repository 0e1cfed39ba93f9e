-- ===== src/Tests/Memory.antt =====
-- A kernel in memory: descriptors by a counter, one pod policy map, a qdisc that is there already,
-- and an XDP hook that is taken.
pub mod Maps
use mathlib.Core.List.{Memᴰ}
use cilion.Base.{
  ◌≢◌, subst, sym, List, ◌∷◌, Bool-cases, inl, inr, str_eq_refl, ℕ, ◌+◌, ◌≡◌, refl, ◌∙◌, ap, Bytes,
  str_eq, [], Option, none, some, Bool, true, false, not, ◌&&◌, ◌||◌, ◌==◌, ltb, if◌then◌else◌,
  arith,
}
use cilion.Effect.{value_or, errno, Result, ok, err}
use cilion.Bpf.Types.{ScionPathEntry, little, put_uint32}
use cilion.Bpf.Kernel.{Kernel, Objects, BpfFilter, Filter, bpf_filter, other_filter}
use cilion.Bpf.Loader.Detach.{IsFilters}
use cilion.Bpf.Loader.Descriptors.{IsKernel, is_handle, holds}
use cilion.Bpf.Loader.Policies.{IsPolicyMap}
use cilion.Agent.{MapView, IsPathCache}
use cilion.Agent.Isolated.{IsFilledByPuts}
use cilion.Agent.Isolated.Load.{CreatesCaches}

pub record Memory : Type 0 where
  pub next : ℕ
  pub opened : ℕ → Bool
  pub policies : Bytes → Option ℕ
  pub paths : Option ℕ → ℕ → Option ScionPathEntry
  pub filters : List Filter

-- A descriptor is open if it was handed out and not closed since.
abbrev pub is_open : Memory → ℕ → Bool
is_open w h = ltb h w.next && w.opened h

abbrev pub handle_eq : Option ℕ → Option ℕ → Bool
handle_eq none none = true
handle_eq none (some b) = false
handle_eq (some a) none = false
handle_eq (some a) (some b) = a == b

-- The paths with one entry set or deleted, and those of a kernel with a new cache.
abbrev pub with_path : Option ℕ → ℕ → Option ScionPathEntry → Memory → Memory
with_path m key o w = record w {
  paths = λ n j. if handle_eq n m && (j == key) then o else w.paths n j;
}

abbrev pub with_cache : ℕ → Memory → Memory
with_cache c w = record w { paths = λ m j. if handle_eq m (some c) then none else w.paths m j }

abbrev pub policy_at : Memory → Option ℕ → Bytes → Option ℕ
policy_at w m b = w.policies b

-- Whether a filter survives the deletion of `f`: it has another name, or no name at all.
abbrev survives : BpfFilter → Filter → Bool
survives f (bpf_filter h) = not (str_eq h.name f.name)
survives f (other_filter n) = true

abbrev surviving : BpfFilter → List Filter → List Filter
surviving f [] = []
surviving f (g ∷ l) = if survives f g then g ∷ surviving f l else surviving f l

abbrev pub objects : ℕ → Objects
objects n = record {
  program = some n;
  pod_policy_map = some (n + 1);
  scion_path_cache = some (n + 2);
}

abbrev pub memory_kernel : Bytes → Bytes → Kernel
memory_kernel tc xdp = record {
  World = Memory;
  Spec = Unit;
  tc_egress_bytes = tc;
  xdp_ingress_bytes = xdp;
  load_spec = λ b w. (ok tt, w);
  load_and_assign = λ p w. (
    ok (objects w.next),
    with_cache (w.next + 2)
        (record w { next = w.next + 3; opened = λ h. not (ltb h w.next) || w.opened h }),
  );
  close_handle = λ c w. (ok tt, record w { opened = λ h. not (is_handle c h) && w.opened h });
  program_fd = λ c w. (ok 0, w);
  map_put_policy = λ m key value w. (
    ok tt,
    record w {
      policies = λ b. if str_eq b (put_uint32 little key) then some value else w.policies b;
    },
  );
  map_put_path = λ m key entry w. (ok tt, with_path m key (some entry) w);
  map_delete = λ m key w. (
    ok tt,
    with_path m key none (record w {
      policies = λ b. if str_eq b (put_uint32 little key) then none else w.policies b;
    }),
  );
  link_by_name = λ name w. (ok 4, w);
  qdisc_add = λ q w. (err (errno 17), w);
  filter_add = λ f w. (ok tt, w);
  filter_list = λ index parent w. (ok w.filters, w);
  filter_del = λ f w. (ok tt, record w { filters = surviving f w.filters });
  attach_xdp = λ c index w. (err (errno 16), w);
}

fresh_lem : (n h : ℕ) (b : Bool) → holds (objects n) h ≡ true → (ltb h n && b) ≡ false
fresh_lem n h b q = ground arith

added_lem :
    (n h : ℕ) (b : Bool)
    → (ltb h (n + 3) && (not (ltb h n) || b)) ≡ (holds (objects n) h || (ltb h n && b))
added_lem n h b = ground arith

closed_lem : (a b c : Bool) → (a && (not c && b)) ≡ (not c && (a && b))
closed_lem a b c = ground arith

assign_lem :
    (o : Objects) (w : Memory) (h : ℕ)
    → objects w.next ≡ o
    → (holds o h ≡ true → is_open w h ≡ false)
      × ((ltb h (w.next + 3) && (not (ltb h w.next) || w.opened h)) ≡ (holds o h || is_open w h))
assign_lem o w h e = (
  (λ q. fresh_lem w.next h (w.opened h) (ap (λ p. holds p h) e ∙ q)),
  added_lem w.next h (w.opened h) ∙ ap (λ p. holds p h || is_open w h) e,
)

objects_or : Objects → Result Objects → Objects
objects_or d (ok o) = o
objects_or d r = d

pub memory-IsKernel : (tc xdp : Bytes) → IsKernel (memory_kernel tc xdp) is_open
unfolding objects_or
memory-IsKernel tc xdp = record {
  spec_keeps = λ b w h. refl;
  assign_ok = λ p w o e h. assign_lem o w h (ap (objects_or o) e);
  assign_err = λ p w e q h. absurd (cc q);
  close_ok = λ c w. (refl, λ h. closed_lem (ltb h w.next) (w.opened h) (is_handle c h));
}

pub memory-IsPolicyMap : (tc xdp : Bytes) → IsPolicyMap (memory_kernel tc xdp) little policy_at
memory-IsPolicyMap tc xdp = record {
  put_ok = λ m key value w e b. refl;
  delete_ok = λ m key w e b. refl;
}

surviving-Mem :
    (f : BpfFilter) (l : List Filter) (g : Filter)
    → Memᴰ g (surviving f l)
    → Memᴰ g l × (g ≢ bpf_filter f)
surviving-Mem f [] g m = elim m [ ]
surviving-Mem f (h ∷ l) g m = elim (Bool-cases (survives f h)) [
  | inl kept ↦ elim (subst (Memᴰ g) (chosen (survives f h) _ _ kept) m) [
    | Memᴰ.head e ↦
        (Memᴰ.head e, λ same. named (sym (ap (survives f) e) ∙ ap (survives f) same) kept)
    | Memᴰ.tail t ↦ let (old, ne) = surviving-Mem f l g t in (Memᴰ.tail old, ne)
  ]
  | inr gone ↦
      let (old, ne) = surviving-Mem f l g (subst (Memᴰ g) (passed (survives f h) _ _ gone) m) in
      (Memᴰ.tail old, ne)
]
  where
    chosen : (b : Bool) (x y : List Filter) → b ≡ true → (if b then x else y) ≡ x
    chosen b x y q = rw q

    passed : (b : Bool) (x y : List Filter) → b ≡ false → (if b then x else y) ≡ y
    passed b x y q = rw q

    named : survives f h ≡ not (str_eq f.name f.name) → survives f h ≡ true → ⊥
    named e q = cc (str_eq_refl f.name, e, q)

pub memory-IsFilters : (tc xdp : Bytes) → IsFilters (memory_kernel tc xdp) (λ w. w.filters) 4
memory-IsFilters tc xdp = record {
  list_ok = λ w l e. (sym (ap (value_or w.filters) e), refl);
  del_ok = λ f w e g m. surviving-Mem f w.filters g m;
}
