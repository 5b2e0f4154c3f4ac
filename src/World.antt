-- ===== src/World.antt =====
-- The state that a request acts on: the Redis server's, and that of everything else that the
-- service reaches (the file system, the content storage, the network). An action on one part leaves
-- the other alone.
use content_service.Prelude.{◌≡◌, sym, ap}
use content_service.Go.{Result, ok, Exec}

pub record World (R D : Type 0) : Type 0 where
  pub redis : R
  pub disk : D

module _ {R D A : Type 0} where
  abbrev pub with_redis : World R D → Result A × R → Result A × World R D
  with_redis w (r, x) = (r, record w { redis = x })

  abbrev pub with_disk : World R D → Result A × D → Result A × World R D
  with_disk w (r, x) = (r, record w { disk = x })

  unfoldable pub on_redis : Exec R A → Exec (World R D) A
  on_redis m w = with_redis w (m w.redis)

  unfoldable pub on_disk : Exec D A → Exec (World R D) A
  on_disk m w = with_disk w (m w.disk)

  pub on_redis-eq-ok :
      (m : Exec R A) (w w' : World R D) (a : A)
      → on_redis m w ≡ (ok a, w')
      → (m w.redis ≡ (ok a, w'.redis)) × (w'.disk ≡ w.disk)
  unfolding on_redis
  on_redis-eq-ok m w w' a h = (λ i. ((h i).0, (h i).1.redis), sym (ap (λ x. x.1.disk) h))

  pub on_disk-eq-ok :
      (m : Exec D A) (w w' : World R D) (a : A)
      → on_disk m w ≡ (ok a, w')
      → (m w.disk ≡ (ok a, w'.disk)) × (w'.redis ≡ w.redis)
  unfolding on_disk
  on_disk-eq-ok m w w' a h = (λ i. ((h i).0, (h i).1.disk), sym (ap (λ x. x.1.redis) h))
