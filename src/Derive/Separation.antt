-- ===== src/Derive/Separation.antt =====
-- The inputs of the key derivation never coincide: internal/derive/derive.go feeds the MAC an
-- unambiguous message for every child index and every swap session.
use mathlib.Core.List.{append_cancel_left}
use qday_walletd.Common.{
  ℕ, zero, suc, String, ◌^◌, ◌<◌, ◌≡◌, ap, ◌∙◌, sym, [], ◌∷◌, ◌++◌, arith, Bytes, text_bytes,
  be_bytes, be_value, be_value-be_bytes, length, length-be_bytes, codes, IsAscii, text_bytes_inj,
  append_inj,
}
use qday_walletd.Derive.{domain, swap_domain, child_message, swap_message}

-- What a key pair is derived for.
pub data Session : Type 0 where
  child : ℕ → Session
  swap : String → Session

-- What the derivation writes into the MAC for it.
pub message : Session → Bytes
message (child index) = child_message index
message (swap swap_id) = swap_message swap_id

-- An index is a uint64. An identifier is ASCII, and its length fits a uint64.
abbrev pub IsSession : Session → Type 0
IsSession (child index) = index < 2 ^ 64
IsSession (swap swap_id) = IsAscii (codes swap_id) × (length (text_bytes swap_id) < 2 ^ 64)

child_message-injective :
    (i j : ℕ) → i < 2 ^ 64 → j < 2 ^ 64 → child_message i ≡ child_message j → i ≡ j
unfolding child_message
child_message-injective i j hi hj e =
    let same : be_bytes 8 i ≡ be_bytes 8 j =
      append_cancel_left (text_bytes domain) (be_bytes 8 i) (be_bytes 8 j) e in
    sym (be_value-be_bytes 8 i hi) ∙ ap be_value same ∙ be_value-be_bytes 8 j hj

swap_message-injective :
    (s t : String) → IsAscii (codes s) → IsAscii (codes t) → swap_message s ≡ swap_message t → s ≡ t
unfolding swap_message
swap_message-injective s t hs ht e =
    let same =
      append_cancel_left (text_bytes swap_domain)
        (be_bytes 8 (length (text_bytes s)) ++ text_bytes s)
        (be_bytes 8 (length (text_bytes t)) ++ text_bytes t) e in
    text_bytes_inj s t hs ht
      (append_inj (be_bytes 8 (length (text_bytes s))) (be_bytes 8 (length (text_bytes t)))
        (text_bytes s) (text_bytes t)
        (length-be_bytes 8 (length (text_bytes s))
          ∙ sym (length-be_bytes 8 (length (text_bytes t))))
        same).1

abbrev byte_at : Bytes → ℕ → ℕ
byte_at [] k = 0
byte_at (b ∷ bs) zero = b
byte_at (b ∷ bs) (suc k) = byte_at bs k

-- The two domain strings part at their fourteenth byte.
child-swap_message_ne : (i : ℕ) (s : String) → ¬ (child_message i ≡ swap_message s)
unfolding child_message swap_message text_bytes
child-swap_message_ne i s e =
    let clash : ◌≡◌ {A = ℕ} b'c' b's' = ap (λ bs. byte_at bs 13) e in omega arith

-- Distinct sessions have distinct MAC inputs: two custody indices below 2^64, two ASCII swap
-- identifiers, or an index and an identifier.
pub message-injective : (a b : Session) → IsSession a → IsSession b → message a ≡ message b → a ≡ b
unfolding message
message-injective (child i) (child j) ha hb e = ap child (child_message-injective i j ha hb e)
message-injective (child i) (swap t) ha hb e = absurd (child-swap_message_ne i t e)
message-injective (swap s) (child j) ha hb e = absurd (child-swap_message_ne j s (sym e))
message-injective (swap s) (swap t) ha hb e = ap swap (swap_message-injective s t ha.0 hb.0 e)
