-- ===== src/Redis/Answering.antt =====
-- A Redis server that is up, and the reads that end with a result then.
use content_service.Prelude.{
  ◌≡◌, refl, sym, ap, ◌∙◌, String, Bool, List, Option, some, Map, contains,
}
use mathlib.Core.Option
use content_service.Go.{GoError, ok, Exec, pure, ◌>>=◌, on_error}
use content_service.Redis.{RedisServer, str, hash_of, set_of, list_of}
use content_service.Redis.Scenes.{Keyspace}

-- The server is up: it answers each read of a key that has the type of the command, or none.
pub record IsAnswering {S : Type 0} (srv : RedisServer S) : Type 0 where
  pub get_answers :
      (k : String) (s : S) (r : Option String)
      → srv.value_at s k ≡ Option.map str r
      → (t : S) × (srv.get k s ≡ (ok r, t))
  pub hget_all_answers :
      (k : String) (s : S) (g : Map String)
      → hash_of (srv.value_at s k) ≡ some g
      → (h : Map String) × (t : S) × (srv.hget_all k s ≡ (ok h, t))
  pub sis_member_answers :
      (k x : String) (s : S) (xs : List String)
      → set_of (srv.value_at s k) ≡ some xs
      → (b : Bool) × (t : S) × (srv.sis_member k x s ≡ (ok b, t))
  pub lrange_all_answers :
      (k : String) (s : S) (xs : List String)
      → list_of (srv.value_at s k) ≡ some xs
      → (ys : List String) × (t : S) × (srv.lrange_all k s ≡ (ok ys, t))

-- From every state with the keyspace `d` the code ends with a result of which `Q` holds, and leaves
-- the keyspace.
pub record Ends {S A : Type 0} (srv : RedisServer S) (d : Keyspace) (m : Exec S A) (Q : A → Type 0)
    : Type 0 where
  pub runs :
      (s : S)
      → srv.value_at s ≡ d
      → (a : A) × (t : S) × (m s ≡ (ok a, t)) × (srv.value_at t ≡ d) × Q a

module _ {S : Type 0} {srv : RedisServer S} {d : Keyspace} where
  open srv use {value_at, get, sis_member, lrange_all}

  pub pure-Ends : {A : Type 0} {Q : A → Type 0} {a : A} → Q a → Ends srv d (pure a) Q
  pure-Ends {A} {Q} {a} q = record { runs = λ s e. (a, s, refl, e, q) }

  pub Ends-imp :
      {A : Type 0} {P Q : A → Type 0} {m : Exec S A}
      → Ends srv d m P
      → ((a : A) → P a → Q a)
      → Ends srv d m Q
  Ends-imp h f = record {
    runs = λ s e. let (a, t, run, e', p) = h.runs s e in (a, t, run, e', f a p);
  }

  pub bind-Ends :
      {A B : Type 0} {P : A → Type 0} {Q : B → Type 0} {m : Exec S A} {f : A → Exec S B}
      → Ends srv d m P
      → ((a : A) → P a → Ends srv d (f a) Q)
      → Ends srv d (m >>= f) Q
  unfolding ◌>>=◌
  bind-Ends h k = record {
    runs = λ s e.
        let (a, t, run, e', p) = h.runs s e in
        let (b, u, run', e2, q) = (k a p).runs t e' in (b, u, rw run run', e2, q);
  }

  pub on_error-Ends :
      {A : Type 0} {Q : A → Type 0} {m : Exec S A} (f : GoError → Exec S A)
      → Ends srv d m Q
      → Ends srv d (on_error m f) Q
  unfolding on_error
  on_error-Ends f h = record {
    runs = λ s e. let (a, t, run, e', q) = h.runs s e in (a, t, rw run refl, e', q);
  }

  module _ (up : IsAnswering srv) where
    pub get-Ends :
        (k : String) (r : Option String) → d k ≡ Option.map str r → Ends srv d (get k) (λ x. x ≡ r)
    get-Ends k r found = record {
      runs = λ s e.
          let (t, run) = up.get_answers k s r (rw e found) in
          (r, t, run, ap (λ x. value_at x.1) (sym run) ∙ srv.get_reads k s ∙ e, refl);
    }

    pub sis_member-Ends :
        (k x : String) (xs : List String)
        → set_of (d k) ≡ some xs
        → Ends srv d (sis_member k x) (λ b. b ≡ contains x xs)
    sis_member-Ends k x xs found = record {
      runs = λ s e.
          let there : set_of (value_at s k) ≡ some xs = rw e found in
          let (b, t, run) = up.sis_member_answers k x s xs there in
          let (ys, at_key, member) = srv.sis_member_ok k x s t b run in
          let same : ys ≡ xs = let both = sym at_key ∙ there in cc in
          (
            b,
            t,
            run,
            ap (λ x. value_at x.1) (sym run) ∙ srv.sis_member_reads k x s ∙ e,
            member ∙ ap (contains x) same,
          );
    }

    pub lrange_all-Ends :
        (k : String) (xs : List String)
        → list_of (d k) ≡ some xs
        → Ends srv d (lrange_all k) (λ ys. ys ≡ xs)
    lrange_all-Ends k xs found = record {
      runs = λ s e.
          let there : list_of (value_at s k) ≡ some xs = rw e found in
          let (ys, t, run) = up.lrange_all_answers k s xs there in
          let same : ys ≡ xs = let both = sym (srv.lrange_all_ok k s t ys run) ∙ there in cc in
          (ys, t, run, ap (λ x. value_at x.1) (sym run) ∙ srv.lrange_all_reads k s ∙ e, same);
    }
