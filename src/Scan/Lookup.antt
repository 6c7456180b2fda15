-- ===== src/Scan/Lookup.antt =====
-- The look-up of a record by the key of a unique index does what it promises.
use collette.Prelude.{◌≡◌, refl, ap, ◌∙◌, Option, none, some}
use mathlib.Core.Path.{subst}
use collette.Bytes.{Bytes}
use collette.Outcome.{Outcome, Error, ok}
use collette.Index.{Index}
use collette.Store.{MultiStore, Content, Contents, IsLawful, Name}
use collette.Collection.{Collection, decode_record}
use collette.Collection.Spec.{spec_decode}
use collette.Collection.Refines.{Refines, done, Refines-backend}
use collette.Collection.Refinement.Methods.{decode_record-Refines}
use collette.Scan.Open.{ScanExecutor, get_by_index, get_primary}

module _ {R PK : Type 0} (c : Collection R PK) where
  -- The record under the primary key that the index holds, if it holds one.
  unfoldable pub spec_get_primary : Name → Contents → Option Bytes → Outcome Error (Option R)
  unfolding spec_decode
  spec_get_primary main ct none = ok none
  spec_get_primary main ct (some primary_key) = spec_decode c (ct main primary_key)

  unfoldable pub spec_get_by_index :
      (i : Index R PK) → Name → Contents → i.IndexKey → Outcome Error (Option R)
  unfolding spec_get_primary
  spec_get_by_index i main ct key = spec_get_primary main ct (ct i.name (i.key_ops.encode key))

module _ {R PK : Type 0} (b : MultiStore) (law : IsLawful b) (c : Collection R PK)
    (executor : ScanExecutor b c.item) where
  read_content :
      (n : Name) (k : Bytes) {store : b.ReadStore} {v : Option Bytes}
      → b.open_read executor.read_handle n ≡ ok store
      → b.get store k ≡ ok v
      → v ≡ law.seen executor.read_handle n k
  read_content n k {store} e g =
      law.get_lem store k g ∙ ap (λ (x : Content). x k) (law.open_read_lem executor.read_handle n e)

  get_primary-Refines :
      (o : Option Bytes)
      → Refines {A = Option R}
          (λ _. Unit {0})
          (λ o. o)
          (spec_get_primary c executor.collection_name (law.seen executor.read_handle) o)
          (get_primary b c executor o)
  unfolding get_primary spec_get_primary
  get_primary-Refines none = done none refl tt
  get_primary-Refines (some primary_key) =
      Refines-backend (b.open_read executor.read_handle executor.collection_name) _ λ store e.
        Refines-backend (b.get store primary_key) _ λ o g.
          subst
            (λ v.
              Refines {A = Option R} (λ _. Unit {0}) (λ o. o) (spec_decode c v)
                (decode_record b c o))
            (read_content executor.collection_name primary_key e g) (decode_record-Refines b c o)

  -- Over any backend that keeps its contract, the look-up by an index returns the decoded record
  -- under the primary key that the index holds under the key, of the stores that the read handle
  -- sees, unless the backend fails or there is a panic.
  pub get_by_index-Refines :
      (i : Index R PK) (key : i.IndexKey)
      → Refines {A = Option R}
          (λ _. Unit {0})
          (λ o. o)
          (spec_get_by_index c i executor.collection_name (law.seen executor.read_handle) key)
          (get_by_index b c i executor key)
  unfolding get_by_index spec_get_by_index
  get_by_index-Refines i key =
      Refines-backend (b.open_read executor.read_handle i.name) _ λ store e.
        Refines-backend (b.get store (i.key_ops.encode key)) _ λ o g.
          subst
            (λ v.
              Refines {A = Option R} (λ _. Unit {0}) (λ o. o)
                (spec_get_primary c executor.collection_name (law.seen executor.read_handle) v)
                (get_primary b c executor o))
            (read_content i.name (i.key_ops.encode key) e g) (get_primary-Refines o)
