-- ===== src/Mq/Headers.antt =====
-- internal/mq/model.go and p3_retry.go: the record that `ProcessWithRetry` sends to the dead-letter topic.
-- The texts of errors and numbers are arguments.
use seckill.Errors.{Error}
use seckill.Prelude.{String, List, ℤ, Option, ℕ, none, ◌∷◌, ◌≡◌, pos, if◌then◌else◌, some, [], refl}
use text.Mathlib.Text.{◌==◌ as str_eq}

-- what the code uses of a record
pub record Message : Type 0 where
  pub topic : String
  pub key : String
  pub value : String
  pub partition : ℤ
  pub offset : ℤ
  pub headers : List (String × String)

module _ (error_text : Error → String) (number_text : ℤ → String) where
  -- `dltHeaders`
  unfoldable pub dlt_headers : Message → Error → ℕ → List (String × String)
  dlt_headers m cause attempts =
      ("failure-reason", error_text cause)
      ∷ ("retry-count", number_text (pos attempts))
      ∷ ("original-topic", m.topic)
      ∷ ("original-partition", number_text m.partition)
      ∷ ("original-offset", number_text m.offset)
      ∷ []

  -- the record that a dead letter is; its partition and offset are the broker's
  unfoldable pub dlt_record : String → Message → Error → ℕ → ℤ → ℤ → Message
  unfolding dlt_headers
  dlt_record dlt_topic m cause attempts partition offset = record {
    topic = dlt_topic;
    key = m.key;
    value = m.value;
    partition = partition;
    offset = offset;
    headers = dlt_headers m cause attempts;
  }

-- the loop of `HeaderMap`, from the map so far
put_headers : List (String × String) → (String → Option String) → String → Option String
put_headers [] out = out
put_headers ((k, v) ∷ hs) out = put_headers hs (λ j. if str_eq j k then some v else out j)

-- `HeaderMap`
unfoldable pub header_map : List (String × String) → String → Option String
unfolding put_headers
header_map hs = put_headers hs (λ j. none)

-- From the headers of a dead letter one reads back where the record stood, why it failed and after how
-- many attempts, and the letter has the record's key and value.
pub header_map-dlt_record :
    (error_text : Error → String) (number_text : ℤ → String) (dlt_topic : String) (m : Message)
    (cause : Error) (attempts : ℕ) (partition offset : ℤ)
    → let d = dlt_record error_text number_text dlt_topic m cause attempts partition offset in
      let h = header_map d.headers in
      (h "failure-reason" ≡ some (error_text cause))
      × (h "retry-count" ≡ some (number_text (pos attempts)))
      × (h "original-topic" ≡ some m.topic)
      × (h "original-partition" ≡ some (number_text m.partition))
      × (h "original-offset" ≡ some (number_text m.offset))
      × (d.key ≡ m.key)
      × (d.value ≡ m.value)
unfolding header_map dlt_record
header_map-dlt_record error_text number_text dlt_topic m cause attempts partition offset =
    (refl, refl, refl, refl, refl, refl, refl)
