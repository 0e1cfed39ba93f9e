-- ===== src/Bpf/Types/Keys.antt =====
-- The map keys: the bytes in memory are those of the address, in network order.
use cilion.Base.{
  ℕ, zero, suc, ◌+◌, ◌-◌, ◌*◌, ◌/◌, ◌%◌, ◌^◌, ◌<◌, ◌≡◌, refl, sym, subst, ◌∙◌, ap, Bytes, length,
  drop, str_eq, All, List, [], ◌∷◌, ◌++◌, some, arith,
}
use cilion.Effect.{ok, ok-injective}
use cilion.Bpf.Types.{
  Endian, little, big, uint32, put_uint32, v4_in_v6_prefix, to4, key_of_ip4, ip_to_key, ip_from_key,
}

abbrev pub AreBytes : Bytes → Type 0
AreBytes = All (λ b. b < 256)

-- The four digits of a 32-bit number, and its bound.
module _ (a b c d : ℕ) (ha : a < 256) (hb : b < 256) (hc : c < 256) (hd : d < 256) where
  abbrev word : ℕ
  word = a + b * 256 + c * 65536 + d * 16777216

  digit₀ : word % 256 ≡ a
  digit₀ = omega arith

  digit₁ : word / 256 % 256 ≡ b
  digit₁ = omega arith

  digit₂ : word / 65536 % 256 ≡ c
  digit₂ = omega arith

  digit₃ : word / 16777216 % 256 ≡ d
  digit₃ = omega arith

  word_bound : word < 2 ^ 32
  word_bound = omega arith

  word_bytes :
      (word % 256) ∷ (word / 256 % 256) ∷ (word / 65536 % 256) ∷ (word / 16777216 % 256) ∷ []
      ≡ a ∷ b ∷ c ∷ d ∷ []
  word_bytes = λ i. digit₀ i ∷ digit₁ i ∷ digit₂ i ∷ digit₃ i ∷ []

  word_bytes_reversed :
      (word / 16777216 % 256) ∷ (word / 65536 % 256) ∷ (word / 256 % 256) ∷ (word % 256) ∷ []
      ≡ d ∷ c ∷ b ∷ a ∷ []
  word_bytes_reversed = λ i. digit₃ i ∷ digit₂ i ∷ digit₁ i ∷ digit₀ i ∷ []

-- Four bytes are what their number is written as.
put_uint32-uint32 :
    (e : Endian) (ip4 : Bytes)
    → length ip4 ≡ 4
    → AreBytes ip4
    → (put_uint32 e (uint32 e ip4) ≡ ip4) × (uint32 e ip4 < 2 ^ 32)
unfolding put_uint32 uint32
put_uint32-uint32 little (a ∷ b ∷ c ∷ d ∷ []) n (ha, (hb, (hc, (hd, _)))) =
    (word_bytes a b c d ha hb hc hd, word_bound a b c d ha hb hc hd)
put_uint32-uint32 big (a ∷ b ∷ c ∷ d ∷ []) n (ha, (hb, (hc, (hd, _)))) =
    (word_bytes_reversed d c b a hd hc hb ha, word_bound d c b a hd hc hb ha)
put_uint32-uint32 e [] n h = absurd (omega arith)
put_uint32-uint32 e (a ∷ []) n h = absurd (omega arith)
put_uint32-uint32 e (a ∷ b ∷ []) n h = absurd (omega arith)
put_uint32-uint32 e (a ∷ b ∷ c ∷ []) n h = absurd (omega arith)
put_uint32-uint32 e (a ∷ b ∷ c ∷ d ∷ f ∷ r) n h = absurd (omega arith)

length-drop : {A : Type 0} (n : ℕ) (xs : List A) → length (drop n xs) ≡ length xs - n
length-drop zero xs = omega arith
length-drop (suc n) [] = omega arith
length-drop (suc n) (x ∷ xs) = omega (arith, length-drop n xs)

-- What `To4` gives has four bytes.
pub to4-length : (ip ip4 : Bytes) → to4 ip ≡ some ip4 → length ip4 ≡ 4
unfolding to4
to4-length ip ip4 h = ground (arith, length-drop 12 ip)

-- The key of an IPv4 address is a 32-bit number, and `IPFromKey` of it gives the four bytes of the
-- address back, in network order, on hosts of both byte orders.
pub ip_from_key-ip_to_key :
    (e : Endian) (ip ip4 : Bytes) (k : ℕ)
    → to4 ip ≡ some ip4
    → AreBytes ip4
    → ip_to_key e ip ≡ ok k
    → (ip_from_key e k ≡ ip4) × (k < 2 ^ 32)
unfolding ip_to_key ip_from_key
ip_from_key-ip_to_key e ip ip4 k h small got =
    let same : uint32 e ip4 ≡ k = ok-injective _ _ (sym (ap (key_of_ip4 e) h) ∙ got) in
    subst (λ j. (put_uint32 e j ≡ ip4) × (j < 2 ^ 32)) same
      (put_uint32-uint32 e ip4 (to4-length ip ip4 h) small)

-- Every 32-bit key comes from the address that `IPFromKey` shows for it.
pub ip_to_key-ip_from_key : (e : Endian) (k : ℕ) → k < 2 ^ 32 → ip_to_key e (ip_from_key e k) ≡ ok k
unfolding ip_to_key ip_from_key to4 put_uint32 uint32
ip_to_key-ip_from_key little k h = ap ok (omega arith)
ip_to_key-ip_from_key big k h = ap ok (omega arith)

-- The IPv4-in-IPv6 form of an address of four bytes has the key of the address itself.
pub ip_to_key_mapped :
    (e : Endian) (ip4 : Bytes)
    → length ip4 ≡ 4
    → ip_to_key e (v4_in_v6_prefix ++ ip4) ≡ ip_to_key e ip4
unfolding ip_to_key to4 str_eq
ip_to_key_mapped e (a ∷ b ∷ c ∷ d ∷ []) n = refl
ip_to_key_mapped e [] n = absurd (omega arith)
ip_to_key_mapped e (a ∷ []) n = absurd (omega arith)
ip_to_key_mapped e (a ∷ b ∷ []) n = absurd (omega arith)
ip_to_key_mapped e (a ∷ b ∷ c ∷ []) n = absurd (omega arith)
ip_to_key_mapped e (a ∷ b ∷ c ∷ d ∷ f ∷ r) n = absurd (omega arith)
