-- ===== src/Contents/Recording.antt =====
-- What CheckContentStatus (internal/handlers/contents_handler.go) may do to the keyspace: it records
-- CIDs in the set of uploaded contents.
use content_service.Prelude.{
  ◌≡◌, refl, sym, ap, fun_ext, ◌∙◌, String, true, false, List, [], ◌∷◌, Option, none, some, ◌||◌,
  ◌==◌, if◌then◌else◌, contains, eq_refl, eq_iff, Bool-cases, ◌⊎◌, inl, inr, arith,
}
use content_service.Redis.{Value, str, hash, set, list, set_of}
use content_service.Redis.Client.{uploaded_elements_key}
use content_service.Redis.Keys.{is_parcel_key, starts_number}
use content_service.Redis.Scenes.{Keyspace}
use content_service.Redis.Ownership.{IsConsistent, IsConsistent-write}

-- A CID in the set of uploaded contents.
pub record IsRecorded (d : Keyspace) (cid : String) : Type 0 where
  pub cids : List String
  pub at_key : d uploaded_elements_key ≡ some (set cids)
  pub member : contains cid cids ≡ true

-- What a step of the handler may do: record more CIDs, and change no other key.
pub record IsRecording (d e : Keyspace) : Type 0 where
  pub keeps : (c : String) → IsRecorded d c → IsRecorded e c
  pub at_key :
      (e uploaded_elements_key ≡ d uploaded_elements_key)
      ⊎ ((cids : List String) × (e uploaded_elements_key ≡ some (set cids)))
  pub others : (j : String) → (uploaded_elements_key == j) ≡ false → e j ≡ d j

pub IsRecording-same : {d e : Keyspace} → e ≡ d → IsRecording d e
IsRecording-same {d} {e} h = record {
  keeps = λ c r. record { cids = r.cids; at_key = rw h r.at_key; member = r.member };
  at_key = inl (ap (λ (f : Keyspace). f uploaded_elements_key) h);
  others = λ j _. ap (λ (f : Keyspace). f j) h;
}

pub IsRecording-trans : {d e f : Keyspace} → IsRecording d e → IsRecording e f → IsRecording d f
IsRecording-trans h k = record {
  keeps = λ c r. k.keeps c (h.keeps c r);
  at_key = elim (k.at_key) [ inl same ↦ rw same h.at_key | inr written ↦ inr written ];
  others = λ j q. k.others j q ∙ h.others j q;
}

pub member-IsRecorded :
    (d : Keyspace) (cid : String) (v : Option Value) (xs : List String)
    → d uploaded_elements_key ≡ v
    → set_of v ≡ some xs
    → contains cid xs ≡ true
    → IsRecorded d cid
member-IsRecorded d cid none xs k h m =
    let same : [] ≡ xs = cc in let m' : false ≡ true = rw (← same) at m in cc
member-IsRecorded d cid (some (set ys)) xs k h m =
    let same : ys ≡ xs = cc in record { cids = xs; at_key = rw (← same) k; member = m }
member-IsRecorded d cid (some (str x)) xs k h m = cc
member-IsRecorded d cid (some (hash x)) xs k h m = cc
member-IsRecorded d cid (some (list x)) xs k h m = cc

-- SADD to the set.
pub added :
    (d e : Keyspace) (cid : String) (xs : List String)
    → set_of (d uploaded_elements_key) ≡ some xs
    → ((j : String) → e j ≡ (if uploaded_elements_key == j then some (set (cid ∷ xs)) else d j))
    → IsRecorded e cid
      × IsRecording d e
      × ((c : String) → IsRecorded e c → (c ≡ cid) ⊎ IsRecorded d c)
added d e cid xs found write = (
  record { cids = cid ∷ xs; at_key = at_key; member = rw (eq_refl cid) refl },
  record {
    keeps = λ c r.
        let same : r.cids ≡ xs = let found' = rw r.at_key at found in cc in
        record { cids = cid ∷ xs; at_key = at_key; member = grind (arith, r.member, same) };
    at_key = inr (cid ∷ xs, at_key);
    others = λ j q. write j ∙ rw q refl;
  },
  λ c r.
      let same : r.cids ≡ cid ∷ xs = let both = sym r.at_key ∙ at_key in cc in
      let member : (cid == c) || contains c xs ≡ true = rw same at r.member in
      elim (Bool-cases (cid == c)) [
        | inl here ↦ inl (sym ((eq_iff cid c).0 here))
        | inr other ↦ inr (
            member-IsRecorded d c (d uploaded_elements_key) xs refl found
              (ground (arith, member, other)))
      ],
)
  where
    at_key : e uploaded_elements_key ≡ some (set (cid ∷ xs))
    at_key = write uploaded_elements_key

-- Recording CIDs leaves the parcels and their scenes alone.
pub IsRecording-IsConsistent : {d e : Keyspace} → IsRecording d e → IsConsistent d → IsConsistent e
unfolding is_parcel_key starts_number
IsRecording-IsConsistent {d} {e} h k = elim (h.at_key) [
  | inl same ↦ rw (← fun_ext (unchanged same)) k
  | inr (cids, written) ↦
      IsConsistent-write uploaded_elements_key (set cids) k refl (λ xs q. cc)
        (rewritten cids written)
]
  where
    unchanged : e uploaded_elements_key ≡ d uploaded_elements_key → (j : String) → d j ≡ e j
    unchanged same j = elim (Bool-cases (uploaded_elements_key == j)) [
      | inl here ↦ rw (← (eq_iff uploaded_elements_key j).0 here) (sym same)
      | inr other ↦ sym (h.others j other)
    ]

    rewritten :
        (cids : List String)
        → e uploaded_elements_key ≡ some (set cids)
        → (j : String) → e j ≡ (if uploaded_elements_key == j then some (set cids) else d j)
    rewritten cids written j = elim (Bool-cases (uploaded_elements_key == j)) [
      | inl here ↦ rw here (rw (← (eq_iff uploaded_elements_key j).0 here) written)
      | inr other ↦ rw other (h.others j other)
    ]
