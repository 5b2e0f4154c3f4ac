-- ===== src/Auth/Signatures.antt =====
-- The branches of IsSignatureValid.
use content_service.Prelude.{
  ℕ, zero, suc, ◌≤◌, ◌≡◌, ◌↔◌, refl, ap, sym, ◌∙◌, ◌++◌, String, true, [], ◌∷◌, nat_eq,
  if◌then◌else◌, Bool-cases, Option, none, some, arith, length, Option-cases, inl, inr,
}
use Prim.Native.String.{len}
use content_service.Prelude.Decimal.{show_ℕ}
use content_service.Prelude.Text.{◌+++◌}
use content_service.Go.{ok, panicked}
use content_service.Auth.{
  Bytes, get_elem?, set_elem, bytes_equal, Crypto, with_prefix, recovery_id, is_signature_valid,
  matches_owner, check_signature,
}

get_elem?-short : (b : Bytes) (i : ℕ) → length b ≤ i → get_elem? b i ≡ none
get_elem?-short [] i h = refl
get_elem?-short (x ∷ b) zero h = absurd (omega arith)
get_elem?-short (x ∷ b) (suc i) h = get_elem?-short b i (omega arith)

-- The recovery ids 27 and 28 of a wallet's signature are 0 and 1 of the curve function's.
abbrev pub raw_id : ℕ → ℕ
raw_id id = if nat_eq id 27 then 0 else if nat_eq id 28 then 1 else id

get_elem?-here :
    (front : Bytes) (x : ℕ) (back : Bytes) (n : ℕ)
    → length front ≡ n
    → get_elem? (front ++ (x ∷ back)) n ≡ some x
get_elem?-here [] x back zero h = refl
get_elem?-here [] x back (suc n) h = absurd (omega arith)
get_elem?-here (y ∷ front) x back zero h = absurd (omega arith)
get_elem?-here (y ∷ front) x back (suc n) h = get_elem?-here front x back n (omega arith)

set_elem-here :
    (front : Bytes) (x : ℕ) (back : Bytes) (v n : ℕ)
    → length front ≡ n
    → set_elem (front ++ (x ∷ back)) n v ≡ front ++ (v ∷ back)
set_elem-here [] x back v zero h = refl
set_elem-here [] x back v (suc n) h = absurd (omega arith)
set_elem-here (y ∷ front) x back v zero h = absurd (omega arith)
set_elem-here (y ∷ front) x back v (suc n) h =
    ap (λ b. y ∷ b) (set_elem-here front x back v n (omega arith))

split_at_elem :
    (b : Bytes) (n x : ℕ)
    → get_elem? b n ≡ some x
    → (front : Bytes) × (back : Bytes) × (b ≡ front ++ (x ∷ back)) × (length front ≡ n)
split_at_elem [] n x h = cc
split_at_elem (y ∷ b) zero x h = let same : y ≡ x = cc in ([], b, ap (λ z. z ∷ b) same, refl)
split_at_elem (y ∷ b) (suc n) x h =
    let (front, back, whole, place) = split_at_elem b n x h in
    (y ∷ front, back, ap (λ z. y ∷ z) whole, omega (arith, place))

module _ (crypto : Crypto) where
  -- A signature that decodes to fewer than 65 bytes makes IsSignatureValid panic, whatever the
  -- message and the address are: the recovery id is read without a test of the length.
  pub is_signature_valid-short :
      (msg sig address : String) (b : Bytes)
      → crypto.hex_decode sig ≡ some b
      → length b ≤ 64
      → is_signature_valid crypto msg sig address ≡ panicked
  unfolding is_signature_valid
  is_signature_valid-short msg sig address b e h = rw (e, get_elem?-short b 64 h)

  recovery_id-raw :
      (front : Bytes) (id : ℕ) (back : Bytes)
      → length front ≡ 64
      → recovery_id crypto (front ++ (id ∷ back)) id ≡ front ++ (raw_id id ∷ back)
  unfolding recovery_id
  recovery_id-raw front id back place = elim (Bool-cases (nat_eq id 27)) [
    | inl low ↦ let is : id ≡ 27 = ground arith in rw is (set_elem-here front 27 back 0 64 place)
    | inr other ↦ elim (Bool-cases (nat_eq id 28)) [
      | inl low ↦ let is : id ≡ 28 = ground arith in rw is (set_elem-here front 28 back 1 64 place)
      | inr more ↦ rw (other, more) refl
    ]
  ]

  bytes_equal-eq : (a b : Bytes) → bytes_equal a b ≡ true → a ≡ b
  bytes_equal-eq [] [] h = refl
  bytes_equal-eq [] (y ∷ b) h = cc
  bytes_equal-eq (x ∷ a) [] h = cc
  bytes_equal-eq (x ∷ a) (y ∷ b) h = ground (arith, bytes_equal-eq a b)

  -- A signature by the address decodes to 64 bytes, a recovery id and maybe more, from which the
  -- curve function recovers, for the hash of the message as wallets prefix it and with the raw id, a
  -- key whose address is the given one.
  pub record IsSignedBy (msg sig address : String) : Type 0 where
    pub front : Bytes
    pub id : ℕ
    pub back : Bytes
    pub key : Bytes
    pub owner : Bytes
    pub decoded : crypto.hex_decode sig ≡ some (front ++ (id ∷ back))
    pub in_front : length front ≡ 64
    pub recovered :
        crypto.ecrecover
          (crypto.keccak256 ("\u{19}Ethereum Signed Message:\n" +++ show_ℕ (len msg) +++ msg))
          (front ++ (raw_id id ∷ back))
        ≡ some key
    pub address_of_key : crypto.address_of key ≡ some owner
    pub address_given : crypto.hex_decode address ≡ some owner

  bytes_equal_self : (a : Bytes) → bytes_equal a a ≡ true
  bytes_equal_self [] = refl
  bytes_equal_self (x ∷ a) = ground (arith, bytes_equal_self a)

  IsSignedBy-valid :
      {msg sig address : String}
      → IsSignedBy msg sig address
      → is_signature_valid crypto msg sig address ≡ ok true
  unfolding is_signature_valid with_prefix
  IsSignedBy-valid s = rw (
    s.decoded,
    get_elem?-here s.front s.id s.back 64 s.in_front,
    recovery_id-raw s.front s.id s.back s.in_front,
    s.recovered,
    s.address_of_key,
    s.address_given,
    bytes_equal_self s.owner,
  )

  matches_owner-eq :
      (signer owner : Option Bytes)
      → matches_owner crypto signer owner ≡ ok true
      → (a : Bytes) × (signer ≡ some a) × (owner ≡ some a)
  matches_owner-eq none owner h = cc
  matches_owner-eq (some a) none h = cc
  matches_owner-eq (some a) (some b) h =
      let same = bytes_equal-eq a b (cc) in (a, refl, ap some (sym same))

  valid-IsSignedBy :
      (msg sig address : String)
      → is_signature_valid crypto msg sig address ≡ ok true
      → IsSignedBy msg sig address
  unfolding is_signature_valid with_prefix
  valid-IsSignedBy msg sig address h = elim (Option-cases (crypto.hex_decode sig)) [
    | inl e ↦ let h1 = rw e at h in cc
    | inr (b, e) ↦
        let h1 = rw e at h in
        elim (Option-cases (get_elem? b 64)) [
          | inl e2 ↦ let h2 = rw e2 at h1 in cc
          | inr (v, e2) ↦ let h2 = rw e2 at h1 in key_of b v e e2 h2
        ]
  ]
    where
      key_of :
          (b : Bytes) (v : ℕ)
          → crypto.hex_decode sig ≡ some b
          → get_elem? b 64 ≡ some v
          → check_signature crypto msg address b (some v) ≡ ok true
          → IsSignedBy msg sig address
      key_of b v e e2 h2 =
          let (front, back, whole, place) = split_at_elem b 64 v e2 in
          elim (Option-cases (
            crypto.ecrecover (crypto.keccak256 (with_prefix crypto msg))
              (recovery_id crypto b v))) [
                | inl e3 ↦ let h3 = rw e3 at h2 in cc
                | inr (key, e3) ↦
                    let h3 = rw e3 at h2 in
                    let (a, signer, owner) =
                      matches_owner-eq (crypto.address_of key) (crypto.hex_decode address) h3 in
                    record {
                      front = front;
                      id = v;
                      back = back;
                      key = key;
                      owner = a;
                      decoded = e ∙ ap some whole;
                      in_front = place;
                      recovered = rw (recovery_id-raw front v back place) at (rw whole at e3);
                      address_of_key = signer;
                      address_given = owner;
                    }
              ]

  -- IsSignatureValid returns true exactly when the signature decodes to 64 bytes, a recovery id and
  -- maybe more bytes, and, for the hash of the message behind "\x19Ethereum Signed Message:\n" and its
  -- length, with 27 and 28 replaced by 0 and 1, a key is recovered whose address is the given one.
  pub is_signature_valid_iff :
      (msg sig address : String)
      → (is_signature_valid crypto msg sig address ≡ ok true) ↔ IsSignedBy msg sig address
  is_signature_valid_iff msg sig address = (valid-IsSignedBy msg sig address, IsSignedBy-valid)
