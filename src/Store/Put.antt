-- ===== src/Store/Put.antt =====
-- Laws of a function changed at one key.
use collette.Prelude.{◌≡◌, ◌≢◌, refl, true, false, inl, inr, Bool-cases}
use collette.Bytes.{Bytes, ◌=ᵇ◌}
use collette.Bytes.Order.{=ᵇ_iff}
use collette.Store.{put}

pub =ᵇ_refl : (k : Bytes) → (k =ᵇ k) ≡ true
=ᵇ_refl k = (=ᵇ_iff k k).1 refl

pub =ᵇ_ne : (k j : Bytes) → k ≢ j → (k =ᵇ j) ≡ false
=ᵇ_ne k j n = elim (Bool-cases (k =ᵇ j)) [ inl e ↦ absurd (n ((=ᵇ_iff k j).0 e)) | inr e ↦ e ]

module _ {ℓ} {V : Type ℓ} (f : Bytes → V) (k : Bytes) (v : V) where
  pub put_self : put f k v k ≡ v
  put_self = rw (=ᵇ_refl k)

  pub put_ne : (j : Bytes) → k ≢ j → put f k v j ≡ f j
  put_ne j n = rw (=ᵇ_ne k j n)
