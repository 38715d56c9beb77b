-- ===== src/Sample.antt =====
-- A concrete platform for the tests: small encodings that can be read back.
use qday_walletd.Common.{
  ℕ, zero, suc, String, true, none, List, [], ◌∷◌, ◌++◌, ◌≡◌, refl, ap, ◌+◌, ◌%◌, arith, Bytes,
  be_bytes, leb, take, drop, length, ◌*◌, be_value, take_prefix, drop_prefix, inl, inr,
}
use qday_walletd.Types.{
  Platform, Transaction, SiacoinOutput, SiacoinInput, other, AtomicSwap, Policy, threshold, opaque,
  hash_lock, above, nil, cons, Result, ok, err, failure, ◌>>=◌, Result-cases, unsigned,
}
use qday_walletd.Meta.Codec.{Codec}

-- A number as so many dots.
unfoldable pub print : ℕ → String
print zero = ""
print (suc n) = String.◌∷◌ "." (print n)

unfoldable pub parse : String → ℕ
parse String.[] = 0
parse (String.◌∷◌ c s) = suc (parse s)

parse-print : (n : ℕ) → parse (print n) ≡ n
unfolding print parse
parse-print zero = refl
parse-print (suc n) = ap suc (parse-print n)

unfoldable pub encode_outputs : List SiacoinOutput → Bytes
encode_outputs [] = []
encode_outputs (o ∷ os) = o.value ∷ o.address ∷ encode_outputs os

unfoldable pub decode_outputs : Bytes → List SiacoinOutput
decode_outputs (v ∷ a ∷ bs) = record { value = v; address = a } ∷ decode_outputs bs
decode_outputs _ = []

decode_outputs-encode_outputs : (os : List SiacoinOutput) → decode_outputs (encode_outputs os) ≡ os
unfolding encode_outputs decode_outputs
decode_outputs-encode_outputs [] = refl
decode_outputs-encode_outputs (o ∷ os) = ap (λ t. o ∷ t) (decode_outputs-encode_outputs os)

-- Only unsigned inputs with an `other` policy are encoded.
encode_witness : Policy → List ℕ → List Bytes → Result ℕ
encode_witness (other n) [] [] = ok n
encode_witness _ _ _ = err (failure "not a sample input")

unfoldable pub encode_inputs : List SiacoinInput → Result Bytes
unfolding encode_witness
encode_inputs [] = ok []
encode_inputs (i ∷ is) = do
  n ←
      encode_witness i.satisfied_policy.policy i.satisfied_policy.preimages
        i.satisfied_policy.signatures
  rest ← encode_inputs is
  ok (
      i.parent.id ∷ i.parent.output.value ∷ i.parent.output.address ∷ i.parent.maturity_height ∷ n
      ∷ rest)

unfoldable pub decode_inputs : ℕ → Bytes → List SiacoinInput × Bytes
decode_inputs (suc k) (id ∷ v ∷ a ∷ m ∷ n ∷ bs) =
    let (is, rest) = decode_inputs k bs in
    (
      record {
        parent = record {
          id = id;
          output = record { value = v; address = a };
          maturity_height = m;
        };
        satisfied_policy = unsigned (other n);
      }
          ∷ is,
      rest,
    )
decode_inputs _ bs = ([], bs)

encode_witness-inv :
    (q : Policy) (preimages : List ℕ) (signatures : List Bytes) (n : ℕ)
    → encode_witness q preimages signatures ≡ ok n
    → (q ≡ other n) × (preimages ≡ []) × (signatures ≡ [])
unfolding encode_witness
encode_witness-inv (other k) [] [] n e = (ground arith, refl, refl)
encode_witness-inv (other k) [] (x ∷ xs) n e = absurd (ground arith)
encode_witness-inv (other k) (x ∷ xs) s n e = absurd (ground arith)
encode_witness-inv q preimages signatures n e = absurd (ground arith)

decode_inputs-encode_inputs :
    (is : List SiacoinInput) (bs rest : Bytes)
    → encode_inputs is ≡ ok bs
    → decode_inputs (length is) (bs ++ rest) ≡ (is, rest)
unfolding encode_inputs decode_inputs
decode_inputs-encode_inputs [] bs rest e = let same : bs ≡ [] = ground arith in rw same
decode_inputs-encode_inputs (i ∷ is) bs rest e =
    let w = i.satisfied_policy in
    elim (Result-cases (encode_witness w.policy w.preimages w.signatures)) [
      | inr (b, bad) ↦ absurd (unfold encode_inputs in ground arith)
      | inl (n, good) ↦ elim (Result-cases (encode_inputs is)) [
        | inr (b, bad) ↦ absurd (unfold encode_inputs in ground arith)
        | inl (cs, more) ↦
            let shape = encode_witness-inv w.policy w.preimages w.signatures n good in
            let whole : bs
                ≡ i.parent.id ∷ i.parent.output.value ∷ i.parent.output.address
                  ∷ i.parent.maturity_height ∷ n ∷ cs =
              ground arith in
            rw (whole, decode_inputs-encode_inputs is cs rest more) (ground (arith, shape))
      ]
    ]

unfoldable pub encode : Transaction → Result Bytes
unfolding encode_inputs encode_outputs
encode t = do
  ins ← encode_inputs t.inputs
  ok (
      t.miner_fee
      ∷ length t.inputs
      ∷ length t.arbitrary_data
      ∷ (t.arbitrary_data ++ (ins ++ encode_outputs t.outputs)))

unfoldable pub decode : Bytes → Result Transaction
unfolding decode_inputs decode_outputs
decode (fee ∷ n ∷ k ∷ bs) =
    let (ins, rest) = decode_inputs n (drop k bs) in
    ok (record {
      inputs = ins;
      outputs = decode_outputs rest;
      miner_fee = fee;
      arbitrary_data = take k bs;
    })
decode _ = err (failure "short transaction")

decode-encode : (t : Transaction) (raw : Bytes) → encode t ≡ ok raw → decode raw ≡ ok t
unfolding encode decode
decode-encode t raw e = elim (Result-cases (encode_inputs t.inputs)) [
  | inr (b, bad) ↦ absurd (ground arith)
  | inl (ins, good) ↦
      let outs = encode_outputs t.outputs in
      let whole : raw
          ≡ t.miner_fee
            ∷ length t.inputs
            ∷ length t.arbitrary_data
            ∷ (t.arbitrary_data ++ (ins ++ outs)) =
        ground arith in
      rw (
        whole,
        drop_prefix (length t.arbitrary_data) t.arbitrary_data (ins ++ outs) refl,
        take_prefix (length t.arbitrary_data) t.arbitrary_data (ins ++ outs) refl,
        decode_inputs-encode_inputs t.inputs ins outs good,
        decode_outputs-encode_outputs t.outputs,
      )
]

-- The two branches of a swap contract, with the hash lock shown.
abbrev claim_branch : AtomicSwap → Policy
claim_branch c = threshold 3 (
    cons (other c.recipient.classical)
      (cons (other c.recipient.reserve) (cons (hash_lock c.secret_hash) nil)))

abbrev refund_branch : AtomicSwap → Policy
refund_branch c = threshold 3 (
    cons (other c.refund.classical)
      (cons (other c.refund.reserve) (cons (above c.refund_height) nil)))

abbrev pub swap_policy : AtomicSwap → Policy
swap_policy c = threshold 1 (cons (claim_branch c) (cons (opaque c.refund_height) nil))

abbrev policy_number : Policy → ℕ
policy_number (other n) = n
policy_number (threshold n _) = 1000 + n
policy_number (opaque n) = n
policy_number (hash_lock n) = n
policy_number (above n) = n

-- Every output keeps its value, keys are the numbers of their seeds, and work is done at nonce 3.
abbrev pub platform : Platform
platform = record {
  parse_address = λ s. ok (parse s);
  address_string = print;
  keys_bytes = λ k. be_bytes 32 k.classical ++ be_bytes 32 k.reserve;
  keys_validate = λ _. none;
  keys_address = λ k. k.classical;
  keys_policy = λ k. other k.classical;
  policy_address = policy_number;
  contract_address = λ c. ok (1000 + c.secret_hash);
  contract_policy = λ c. ok (swap_policy c);
  is_swap_spend_policy = λ _. true;
  parse_currency = λ s. ok (parse s);
  exact_string = print;
  format_amount = λ v unit. print v;
  hastings_per_siacoin = 1000;
  encode_transaction = encode;
  decode_transaction = decode;
  transaction_id = λ t. t.miner_fee + length t.inputs + length t.outputs;
  output_id = λ id i. 100 * id + i;
  id_string = print;
  parse_output_id = λ s. ok (parse s);
  index_string = λ i. print i.height;
  sha256 = λ secret. secret + 1;
  hmac_sha512 = λ key text. drop 21 text;
  keys_from_seed = λ seed. ok (record {
    public = record { classical = be_value seed % 1000 + 1; reserve = 7 };
    secret = seed;
  });
  sign = λ k hash. ok (unsigned (other k.public.classical));
  transfer_envelope = λ nonce. nonce ∷ [];
  envelope_nonce = λ bs. ok (be_value bs);
  qday_value = λ cs e height. e.output.value;
  qday_units = λ cs height. 1;
  qday_active = λ cs height. leb cs.qday_height height;
  v1_active = λ cs height. leb cs.v1_height height;
  sig_hash = λ cs t. t.miner_fee;
  work_intent = λ cs t. t.miner_fee;
  work_valid = λ intent nonce bits. leb 3 nonce;
  validate = λ cs t. none;
}

pub platform-Codec : Codec platform
platform-Codec = record {
  parse_address_string = λ a h. ap ok (parse-print a);
  keys_bytes_layout = λ k. refl;
  parse_exact_string = λ c h. ap ok (parse-print c);
  decode_encoded = decode-encode;
}
