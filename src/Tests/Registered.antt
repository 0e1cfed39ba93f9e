-- ===== src/Tests/Registered.antt =====
-- A scheme in memory: the types with their group and version.
use mathlib.Core.List.{Memᴰ}
use cilion.Base.{refl, ap, codes, List, [], ◌∷◌, ◌++◌, inl, inr}
use cilion.Effect.{ok, world}
use cilion.Scheme.{GroupVersion, GoType, scion_cluster_peer_list, pod, SchemeApi, init}
use cilion.Scheme.Known.{IsScheme, served, init_knows}
use cilion.Tests.Routes.{append_join}

abbrev Entry : Type 0
Entry = GroupVersion × GoType

abbrev entries : GroupVersion → List GoType → List Entry
entries v [] = []
entries v (t ∷ l) = (v, t) ∷ entries v l

abbrev memory : SchemeApi
memory = record {
  Builder = GroupVersion × List GoType;
  Scheme = List Entry;
  new_builder = λ v. (v, []);
  register = λ l b. (b.0, l ++ b.1);
  new_scheme = [];
  add_to_scheme = λ b s. (ok tt, entries b.0 b.1 ++ s);
  add_client_go = λ s. (ok tt, (record { group = []; version = codes "v1" }, pod) ∷ s);
  must = λ m. m;
  Knows = λ s v t. Memᴰ (v, t) s;
}

mem_entries :
    (v : GroupVersion) (t : GoType) (l : List GoType) → Memᴰ t l → Memᴰ (v, t) (entries v l)
mem_entries v t [] h = elim h [ ]
mem_entries v t (u ∷ l) (Memᴰ.head e) = Memᴰ.head (ap (λ x. (v, x)) e)
mem_entries v t (u ∷ l) (Memᴰ.tail h) = Memᴰ.tail (mem_entries v t l h)

memory-IsScheme : IsScheme memory (λ b t. Memᴰ t b.1) (λ b. b.0)
memory-IsScheme = record {
  version_new = λ v. refl;
  version_register = λ l b. refl;
  added = λ l b t h. append_join t l b.1 (inl h);
  kept = λ l b t h. append_join t l b.1 (inr h);
  add_known = λ b s t fine h. append_join _ (entries b.0 b.1) s (inl (mem_entries b.0 t b.1 h));
  add_keeps = λ b s v t h. append_join _ (entries b.0 b.1) s (inr h);
  client_go_known = λ s h. Memᴰ.head refl;
  must_ok = λ m s h. (h, refl);
}

init_knows_example :
    Memᴰ (served scion_cluster_peer_list, scion_cluster_peer_list) (world (init memory []))
unfolding init
init_knows_example =
    init_knows memory (λ b t. Memᴰ t b.1) (λ b. b.0) memory-IsScheme [] refl scion_cluster_peer_list
