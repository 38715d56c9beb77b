-- ===== src/Daemon/Swap/Accepted.antt =====
-- What the daemon prints of hashes and keys it accepts, and it accepts nothing else for them.
use qday_walletd.Common.{
  ℕ, ◌^◌, ◌<◌, String, Bool, str_append, ◌≡◌, refl, ap, ◌⊎◌, ◌↔◌, inl, inr, true, false, none,
  arith, be_bytes, be_bytes-small, length-be_bytes, be_value-be_bytes, text_bytes_ascii, str_eq,
  eq_iff, hex_decode-hex_encode, hex_encode-IsHexText, ◌||◌,
}
use qday_walletd.Types.{Platform, QdayKeys, Error, ok, failure, guard, ◌>>◌}
use qday_walletd.Daemon.Swap.Keys.{
  SwapKeysView, hash_text, parse_hash, swap_keys_view, parse_swap_keys,
}

pub parse_hash-hash_text :
    (name : String) (n : ℕ) → n < 2 ^ 256 → parse_hash name (hash_text n) ≡ ok n
unfolding parse_hash
parse_hash-hash_text name n h =
    let small = be_bytes-small 32 n in
    let (ascii, low, size) = hex_encode-IsHexText (be_bytes 32 n) small in
    rw
      (
        text_bytes_ascii (hash_text n) ascii,
        size,
        length-be_bytes 32 n,
        low,
        hex_decode-hex_encode (be_bytes 32 n) small,
        length-be_bytes 32 n,
      )
      (ap ok (be_value-be_bytes 32 n h))

guarded : {A : Type 0} (b : Bool) (e : Error) (a : A) → ((guard b e >> ok a) ≡ ok a) ↔ (b ≡ true)
guarded true e a = (λ h. refl, λ h. refl)
guarded false e a = (λ h. absurd (ground arith), λ h. absurd (ground arith))

either_of :
    {P Q : Type 0} (a b : Bool) → (a ≡ true) ↔ P → (b ≡ true) ↔ Q → ((a || b) ≡ true) ↔ (P ⊎ Q)
either_of true b p q = (λ h. inl (p.0 refl), λ h. refl)
either_of false b p q =
    (λ h. inr (q.0 h), λ h. elim h [ inl x ↦ absurd (false-true (p.1 x)) | inr y ↦ q.1 y ])
  where
    false-true : false ≡ true → ⊥
    false-true e = ground arith

-- The view of keys, with another text in the place of their address.
abbrev pub readdressed : Platform → QdayKeys → String → SwapKeysView
unfolding swap_keys_view
readdressed p k address = record (swap_keys_view p k) { address = address }

-- The view that the daemon gives of valid keys is accepted as these keys if its address is left out or
-- is the address of the keys, and with no other address.
pub parse_swap_keys-swap_keys_view :
    (p : Platform) (name : String) (k : QdayKeys) (address : String)
    → k.classical < 2 ^ 256
    → k.reserve < 2 ^ 256
    → p.keys_validate k ≡ none
    → (parse_swap_keys p name (readdressed p k address) ≡ ok k)
      ↔ ((address ≡ "") ⊎ (address ≡ (swap_keys_view p k).address))
unfolding parse_swap_keys swap_keys_view
parse_swap_keys-swap_keys_view p name k address hc hr valid =
    let first = parse_hash-hash_text (str_append name ".classical") k.classical hc in
    let second = parse_hash-hash_text (str_append name ".reserve") k.reserve hr in
    let none_sent = eq_iff address "" in
    let same = eq_iff address (p.address_string (p.keys_address k)) in
    let accepted = either_of _ _ none_sent same in
    let tested =
      guarded (str_eq address "" || str_eq address (p.address_string (p.keys_address k)))
        (failure (str_append name ".address does not match its public keys")) k in
    rw (first, second, valid) (λ e. accepted.0 (tested.0 e), λ h. tested.1 (accepted.1 h))
