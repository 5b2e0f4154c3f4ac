-- ===== src/Contents/Status.antt =====
-- CheckContentStatus: what its answers say of the set of uploaded CIDs, and what it changes.
use content_service.Prelude.{
  ℕ, ◌≡◌, refl, sym, ap, ◌∙◌, String, Bool, true, false, List, [], ◌∷◌, some, Map, insert,
  lookup-insert, ◌==◌, All, contains, eq_refl, eq_iff, Bool-cases, ◌⊎◌, inl, inr,
}
use content_service.Prelude.Maps.{lookup}
use content_service.Go.{
  invalid_argument, required_value, unexpected, unauthorized, not_found, internal, plain, Result,
  ok, err, panicked, raise, on_error,
}
use content_service.Go.Inversion.{>>=-eq-ok, pure-eq-ok, inspect-eq-ok, on_error-raise-eq-ok}
use content_service.World.{World, on_disk, on_redis, on_redis-eq-ok}
use content_service.Http.{Reply, json}
use content_service.Redis.{RedisServer}
use content_service.Redis.Client.{add_cid, is_content_member}
use content_service.Redis.Scenes.{Keyspace}
use content_service.Storage.{FileSystem, Storage}
use content_service.Contents.Recording.{
  IsRecorded, IsRecording, IsRecording-same, IsRecording-trans, member-IsRecorded, added,
}
use content_service.Contents.{
  in_storage, check_content_in_storage, is_uploaded, statuses_of, statuses_reply,
  check_content_status,
}

abbrev IsAnswered : Map Bool → String → Type 0
IsAnswered resp c = (b : Bool) × (lookup c resp ≡ some b)

insert-IsAnswered : (cid : String) (b : Bool) (resp : Map Bool) → IsAnswered (insert cid b resp) cid
insert-IsAnswered cid b resp = (b, lookup-insert cid cid b resp ∙ rw (eq_refl cid) refl)

IsAnswered-insert :
    (cid c : String) (b : Bool) (resp : Map Bool)
    → IsAnswered resp c
    → IsAnswered (insert cid b resp) c
IsAnswered-insert cid c b resp (x, h) = elim (Bool-cases (cid == c)) [
  | inl same ↦ (b, lookup-insert cid c b resp ∙ rw same refl)
  | inr other ↦ (x, lookup-insert cid c b resp ∙ rw other h)
]

module _ {R D : Type 0} (srv : RedisServer R) (sto : Storage D) (fs : FileSystem D) where
  open srv use {value_at}

  abbrev keys : World R D → Keyspace
  keys w = value_at w.redis

  -- The storage gave the size of the file of that name, or answered that it has none.
  abbrev IsStored : String → Type 0
  IsStored c = (size : ℕ) × (s : D) × (u : D) × (sto.file_size c s ≡ (ok size, u))

  abbrev IsMissing : String → Type 0
  IsMissing c =
      (cause : String) × (s : D) × (u : D) × (sto.file_size c s ≡ (err (not_found cause), u))

  -- Each CID that was added is one that the storage has.
  abbrev IsAdding : World R D → World R D → Type 0
  IsAdding w w' = (c : String) → IsRecorded (keys w') c → IsRecorded (keys w) c ⊎ IsStored c

  IsAdding-same : (w w' : World R D) → keys w' ≡ keys w → IsAdding w w'
  IsAdding-same w w' same c r =
      inl (record { cids = r.cids; at_key = rw (← same) r.at_key; member = r.member })

  IsAdding-trans : (w u v : World R D) → IsAdding w u → IsAdding u v → IsAdding w v
  IsAdding-trans w u v h k c r = elim (k c r) [ inl there ↦ h c there | inr found ↦ inr found ]

  in_storage-ok :
      (cid : String) (x : Result ℕ) (w w' : World R D) (b : Bool) (d e : D)
      → sto.file_size cid d ≡ (x, e)
      → in_storage srv sto fs cid x w ≡ (ok b, w')
      → (b ≡ true → IsRecorded (keys w') cid)
        × IsRecording (keys w) (keys w')
        × IsAdding w w'
        × (b ≡ false → IsMissing cid)
  unfolding add_cid
  in_storage-ok cid (ok size) w w' b d e0 asked h =
      let (_, u, e, k) =
        >>=-eq-ok (on_error (on_redis (add_cid srv cid)) λ e. raise (plain "unexpected error")) _ w
          h in
      let e' =
        on_error-raise-eq-ok (on_redis (add_cid srv cid)) (λ _. plain "unexpected error") w e in
      let (ran, _) = on_redis-eq-ok (add_cid srv cid) w u tt e' in
      let (xs, found, write) = srv.sadd_ok _ cid w.redis u.redis ran in
      let (now, step, old) = added (keys w) (keys u) cid xs found write in
      let (_, ends) = pure-eq-ok true b u w' k in
      let adding : IsAdding w u = λ c r. elim (old c r) [
        | inl same ↦ inr (size, d, e0, rw same asked)
        | inr there ↦ inl there
      ] in
      (λ _. rw (← ends) now, rw (← ends) step, rw (← ends) adding, λ no. cc)
  in_storage-ok cid (err (not_found cause)) w w' b d e0 asked h =
      let (same, ends) = pure-eq-ok false b w w' h in
      (
        λ q. cc,
        IsRecording-same (ap keys (sym ends)),
        IsAdding-same w w' (ap keys (sym ends)),
        λ _. (cause, d, e0, asked),
      )
  in_storage-ok cid (err (invalid_argument m)) w w' b d e0 asked h = cc
  in_storage-ok cid (err (required_value m)) w w' b d e0 asked h = cc
  in_storage-ok cid (err (unexpected m e)) w w' b d e0 asked h = cc
  in_storage-ok cid (err (unauthorized m)) w w' b d e0 asked h = cc
  in_storage-ok cid (err (internal m)) w w' b d e0 asked h = cc
  in_storage-ok cid (err (plain m)) w w' b d e0 asked h = cc
  in_storage-ok cid panicked w w' b d e0 asked h = cc

  is_uploaded-ok :
      (cid : String) (w w' : World R D) (b : Bool)
      → is_uploaded srv sto fs cid w ≡ (ok b, w')
      → (b ≡ true → IsRecorded (keys w') cid)
        × IsRecording (keys w) (keys w')
        × IsAdding w w'
        × (b ≡ false → IsMissing cid × ¬ (IsRecorded (keys w) cid))
  unfolding is_uploaded check_content_in_storage is_content_member on_disk
  is_uploaded-ok cid w w' b h =
      let (uploaded, u, e, k) = >>=-eq-ok (on_redis (is_content_member srv cid)) _ w h in
      let (ran, _) = on_redis-eq-ok (is_content_member srv cid) w u uploaded e in
      let (xs, found, member) = srv.sis_member_ok _ cid w.redis u.redis uploaded ran in
      let kept : keys u ≡ keys w =
        ap (λ x. value_at x.1) (sym ran) ∙ srv.sis_member_reads _ cid w.redis in
      elim (Bool-cases uploaded) [
        | inl member_already ↦
            let k' = rw member_already at k in
            let (_, ends) = pure-eq-ok true b u w' k' in
            let same : keys w' ≡ keys w = ap keys (sym ends) ∙ kept in
            (
              λ _.
                  rw same
                    (member-IsRecorded (keys w) cid _ xs refl found (sym member ∙ member_already)),
              IsRecording-same same,
              IsAdding-same w w' same,
              λ no. cc,
            )
        | inr missing ↦
            let k' =
              inspect-eq-ok (on_disk (sto.file_size cid)) (in_storage srv sto fs cid) u
                (rw missing at k) in
            let asked : World R D = record u { disk = (sto.file_size cid u.disk).1 } in
            let (now, step, adding, absent) =
              in_storage-ok cid (sto.file_size cid u.disk).0 asked w' b u.disk
                (sto.file_size cid u.disk).1 refl k' in
            (
              now,
              IsRecording-trans (IsRecording-same kept) step,
              IsAdding-trans w asked w' (IsAdding-same w asked kept) adding,
              λ no. (
                absent no,
                λ r.
                    let same : r.cids ≡ xs = let found' = rw r.at_key at found in cc in
                    let there : contains cid xs ≡ true = rw (← same) r.member in cc,
              ),
            )
      ]

  -- The answers so far, where `w0` is the world at the start.
  record IsRight (w0 : World R D) (resp : Map Bool) (w : World R D) : Type 0 where
    positive : (c : String) → lookup c resp ≡ some true → IsRecorded (keys w) c
    negative : (c : String) → lookup c resp ≡ some false → IsMissing c × ¬ (IsRecorded (keys w0) c)

  empty-IsRight : (w : World R D) → IsRight w [] w
  unfolding lookup
  empty-IsRight w = record { positive = λ c q. cc; negative = λ c q. cc }

  recorded-IsRight :
      (w0 : World R D) (cid : String) (uploaded : Bool) (resp : Map Bool) (w u : World R D)
      → IsRight w0 resp w
      → IsRecording (keys w0) (keys w)
      → (uploaded ≡ true → IsRecorded (keys u) cid)
      → (uploaded ≡ false → IsMissing cid × ¬ (IsRecorded (keys w) cid))
      → IsRecording (keys w) (keys u)
      → IsRight w0 (insert cid uploaded resp) u
  recorded-IsRight w0 cid uploaded resp w u right before now absent step = record {
    positive = λ c q. elim (Bool-cases (cid == c)) [
      | inl same ↦
          let q' = rw same at (sym (lookup-insert cid c uploaded resp) ∙ q) in
          rw (← (eq_iff cid c).0 same) (now (cc))
      | inr other ↦
          step.keeps c
            (right.positive c (rw other at (sym (lookup-insert cid c uploaded resp) ∙ q)))
    ];
    negative = λ c q. elim (Bool-cases (cid == c)) [
      | inl same ↦
          let q' = rw same at (sym (lookup-insert cid c uploaded resp) ∙ q) in
          let (missing, unrecorded) = absent (cc) in
          rw (← (eq_iff cid c).0 same) (missing, λ r. unrecorded (before.keeps cid r))
      | inr other ↦ right.negative c (rw other at (sym (lookup-insert cid c uploaded resp) ∙ q))
    ];
  }

  statuses_of-ok :
      (w0 : World R D) (cids : List String) (resp resp' : Map Bool) (w w' : World R D)
      → IsRight w0 resp w
      → IsRecording (keys w0) (keys w)
      → statuses_of srv sto fs resp cids w ≡ (ok resp', w')
      → IsRight w0 resp' w'
        × IsRecording (keys w) (keys w')
        × IsAdding w w'
        × All (IsAnswered resp') cids
        × ((c : String) → IsAnswered resp c → IsAnswered resp' c)
  unfolding statuses_of
  statuses_of-ok w0 [] resp resp' w w' right before h =
      let (same, ends) = pure-eq-ok resp resp' w w' h in
      (
        rw (← same, ← ends) right,
        IsRecording-same (ap keys (sym ends)),
        IsAdding-same w w' (ap keys (sym ends)),
        tt,
        λ c b. rw (← same) b,
      )
  statuses_of-ok w0 (cid ∷ cids) resp resp' w w' right before h =
      let (uploaded, u, e, k) = >>=-eq-ok (is_uploaded srv sto fs cid) _ w h in
      let (now, step, adding, absent) = is_uploaded-ok cid w u uploaded e in
      let (right', steps, addings, answered, kept) =
        statuses_of-ok w0 cids (insert cid uploaded resp) resp' u w'
          (recorded-IsRight w0 cid uploaded resp w u right before now absent step)
          (IsRecording-trans before step) k in
      (
        right',
        IsRecording-trans step steps,
        IsAdding-trans w u w' adding addings,
        (kept cid (insert-IsAnswered cid uploaded resp), answered),
        λ c b. kept c (IsAnswered-insert cid c uploaded resp b),
      )

  statuses_reply-json :
      (x : Result (Map Bool)) (u t : World R D) (reply : Reply (Map Bool)) (resp : Map Bool)
      → statuses_reply srv sto fs x u ≡ (ok reply, t)
      → reply.body ≡ json resp
      → (x ≡ ok resp) × (u ≡ t)
  statuses_reply-json (ok ys) u t reply resp h b =
      let (e, ends) = pure-eq-ok _ reply u t h in
      let same = ap (λ (r : Reply (Map Bool)). r.body) e in (cc, ends)
  statuses_reply-json (err e) u t reply resp h b =
      let same = ap (λ (r : Reply (Map Bool)). r.body) (pure-eq-ok _ reply u t h).0 in cc
  statuses_reply-json panicked u t reply resp h b = cc

  -- When CheckContentStatus answers with a map, every CID that was asked for has an entry in it. A
  -- CID whose entry is true is in the set of uploaded contents then; one whose entry is false was not
  -- in the set before, and the storage answered that it has no such file. A CID is in the set
  -- afterwards only if it was before or the storage gave the size of its file; no CID left the set,
  -- and no other key of Redis changed.
  pub check_content_status-IsRecorded :
      (content : List String) (w w' : World R D) (reply : Reply (Map Bool)) (resp : Map Bool)
      → check_content_status srv sto fs (some content) w ≡ (ok reply, w')
      → reply.body ≡ json resp
      → All (λ c. (b : Bool) × (lookup c resp ≡ some b)) content
        × ((c : String) → lookup c resp ≡ some true → IsRecorded (value_at w'.redis) c)
        × IsRecording (value_at w.redis) (value_at w'.redis)
        × ((c : String)
            → lookup c resp ≡ some false
            → ((cause : String) × (s : D) × (u : D) × (sto.file_size c s
                  ≡ (err (not_found cause), u)))
              × ¬ (IsRecorded (value_at w.redis) c))
        × ((c : String)
            → IsRecorded (value_at w'.redis) c
            → IsRecorded (value_at w.redis) c
              ⊎ ((size : ℕ) × (s : D) × (u : D) × (sto.file_size c s ≡ (ok size, u))))
  unfolding check_content_status
  check_content_status-IsRecorded content w w' reply resp h b =
      let run = statuses_of srv sto fs [] content w in
      let (e, ends) =
        statuses_reply-json run.0 run.1 w' reply resp
          (inspect-eq-ok (statuses_of srv sto fs [] content) (statuses_reply srv sto fs) w h) b in
      let (right, step, adding, answered, _) =
        statuses_of-ok w content [] resp w w' (empty-IsRight w) (IsRecording-same refl)
          (λ i. (e i, ends i)) in
      (answered, right.positive, step, right.negative, adding)
