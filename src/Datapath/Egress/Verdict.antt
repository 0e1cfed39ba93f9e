-- ===== src/Datapath/Egress/Verdict.antt =====
-- What the egress program makes of a packet, in each of its cases.
use cilion.Base.{
  ℕ, ◌+◌, ◌≤◌, ◌<◌, ◌≡◌, refl, sym, ap, ◌∙◌, Bytes, length, drop, Option, none, some, Bool, true,
  false, ltb, Bool-cases, inl, inr, if◌then◌else◌, arith,
}
use cilion.Bpf.Types.{ScionPathEntry}
use cilion.Datapath.Packet.{Access, in_bounds, read}
use cilion.Datapath.Egress.{
  Maps, TcAct, tc_act_ok, tc_act_shot, max_path_len, encap_len, encapsulate_in, encapsulate,
  by_path, tc_egress,
}
use cilion.Datapath.Egress.Safety.{HasShape}
use cilion.Datapath.Egress.Forward.{is_ipv4, is_ipv4_long, path_of, route, tc_egress-route}
use cilion.Datapath.Egress.Outer.{IsRoom, IsOuter, encapsulate_lem}

route-long :
    (maps : Maps) (p : Bytes) (path : ScionPathEntry) → route maps p ≡ some path → 14 ≤ length p
unfolding route
route-long maps p path h = is_ipv4_long p (tested (is_ipv4 p) _ h)
  where
    tested : (b : Bool) (o : Option ScionPathEntry) → (if b then o else none) ≡ some path → b ≡ true
    tested true o h = refl
    tested false o h = absurd (cc h)

encap_len-short :
    (path : ScionPathEntry) → path.path_len ≤ 256 → encap_len path ≡ 72 + path.path_len
unfolding encap_len
encap_len-short path h = omega arith

module _ (adjust_room : Bytes → ℕ → Option Bytes) (path : ScionPathEntry) (p : Bytes) where
  encapsulate_long : 256 < path.path_len → encapsulate adjust_room p path ≡ in_bounds tc_act_shot
  unfolding encapsulate
  encapsulate_long h = tested _ (exceeds path.path_len h)
    where
      exceeds : (n : ℕ) → 256 < n → ltb max_path_len n ≡ true
      exceeds n h = ground arith

      tested :
          (b : Bool)
          → b ≡ true
          → (if b
              then in_bounds tc_act_shot
              else encapsulate_in adjust_room (adjust_room p (encap_len path)) path)
            ≡ in_bounds tc_act_shot
      tested b h = rw h refl

  encapsulate_full :
      adjust_room p (encap_len path) ≡ none → encapsulate adjust_room p path ≡ in_bounds tc_act_shot
  unfolding encapsulate
  encapsulate_full h = tested (ltb max_path_len path.path_len)
    where
      tested :
          (b : Bool)
          → (if b
              then in_bounds tc_act_shot
              else encapsulate_in adjust_room (adjust_room p (encap_len path)) path)
            ≡ in_bounds tc_act_shot
      tested true = refl
      tested false = ap (λ o. encapsulate_in adjust_room o path) h

-- The verdicts on a packet, by the path of the policy of its source address.
pub data Verdict (adjust_room : Bytes → ℕ → Option Bytes) (maps : Maps) (p : Bytes)
    : TcAct → Type 0 where
  passed : route maps p ≡ none → Verdict adjust_room maps p (tc_act_ok p)
  too_long :
      (path : ScionPathEntry)
      → route maps p ≡ some path
      → 256 < path.path_len
      → Verdict adjust_room maps p tc_act_shot
  no_room :
      (path : ScionPathEntry)
      → route maps p ≡ some path
      → path.path_len ≤ 256
      → adjust_room p (72 + path.path_len) ≡ none
      → Verdict adjust_room maps p tc_act_shot
  sent :
      (path : ScionPathEntry) (q r : Bytes)
      → route maps p ≡ some path
      → path.path_len ≤ 256
      → adjust_room p (72 + path.path_len) ≡ some q
      → IsOuter path r
      → length r ≡ length p + (72 + path.path_len)
      → drop (14 + (72 + path.path_len)) r ≡ drop 14 p
      → Verdict adjust_room maps p (tc_act_ok r)

module _ (adjust_room : Bytes → ℕ → Option Bytes) (room : IsRoom adjust_room) (maps : Maps)
    (shaped : (policy : ℕ) (path : ScionPathEntry)
      → maps.scion_path_cache policy ≡ some path
      → HasShape path)
    (p : Bytes) where
  abbrev Decided : Access TcAct → Type 0
  Decided m = (act : TcAct) × (m ≡ in_bounds act) × Verdict adjust_room maps p act

  cached : (path : ScionPathEntry) → route maps p ≡ some path → HasShape path
  unfolding route
  cached path h = found (is_ipv4 p) (maps.pod_policy_map (read 26 4 p)) h
    where
      found :
          (b : Bool) (o : Option ℕ)
          → (if b then path_of maps o else none) ≡ some path
          → HasShape path
      found true (some policy) h = shaped policy path h
      found true none h = absurd (cc h)
      found false o h = absurd (cc h)

  along-Decided :
      (path : ScionPathEntry) → route maps p ≡ some path → Decided (encapsulate adjust_room p path)
  along-Decided path routed = elim (Bool-cases (ltb 256 path.path_len)) [
    | inl long ↦
        let exceeds = exceeding path.path_len long in
        (tc_act_shot, encapsulate_long adjust_room path p exceeds, too_long path routed exceeds)
    | inr short ↦ within_256 (fitting path.path_len short) (adjust_room p (72 + path.path_len)) refl
  ]
    where
      exceeding : (n : ℕ) → ltb 256 n ≡ true → 256 < n
      exceeding n h = ground arith

      fitting : (n : ℕ) → ltb 256 n ≡ false → n ≤ 256
      fitting n h = ground arith

      within_256 :
          path.path_len ≤ 256
          → (o : Option Bytes) → adjust_room p (72 + path.path_len) ≡ o
          → Decided (encapsulate adjust_room p path)
      within_256 short none full =
          let e = ap (adjust_room p) (encap_len-short path short) in
          (
            tc_act_shot,
            encapsulate_full adjust_room path p (e ∙ full),
            no_room path routed short full,
          )
      within_256 short (some q) made =
          let value = encap_len-short path short in
          let (r, run, outer, size, kept) =
            encapsulate_lem adjust_room room p q path (cached path routed) short
              (route-long maps p path routed) (ap (adjust_room p) value ∙ made) in
          (
            tc_act_ok r,
            run,
            sent path q r routed short made outer (size ∙ ap (λ n. length p + n) value)
                (ap (λ n. drop (14 + n) r) (sym value) ∙ kept),
          )

  -- With room that behaves as documented and cached paths whose next hops have four address bytes
  -- and six MAC bytes, the verdict on a packet goes by the path of the policy of its source
  -- address, if it is IPv4 with its header inside and the maps have one. Without a path it passes
  -- as it is; with a path of more than 256 bytes, or without room for 72 bytes and the path, it is
  -- dropped; else it leaves with outer headers that lead to the next hop, that many bytes longer,
  -- and unchanged from its IPv4 header on.
  pub tc_egress-Verdict :
      (act : TcAct) × (tc_egress adjust_room maps p ≡ in_bounds act)
      × Verdict adjust_room maps p act
  tc_egress-Verdict =
      let (act, e, v) = decided (route maps p) refl in
      (act, tc_egress-route adjust_room maps p ∙ e, v)
    where
      decided :
          (o : Option ScionPathEntry)
          → route maps p ≡ o
          → Decided (by_path adjust_room p (route maps p))
      decided none h = (tc_act_ok p, ap (by_path adjust_room p) h, passed h)
      decided (some path) h =
          let (act, e, v) = along-Decided path h in (act, ap (by_path adjust_room p) h ∙ e, v)
