-- ===== src/Store/Aws.antt =====
-- What the DynamoDB backend uses of the AWS SDK and the service, which are not part of the repository: a
-- client over the state `S` of the service, with each request as what the source sets of it.
use super_victor.Prelude.{Bool, Option, List}
use super_victor.Prelude.Text.{Text}
use super_victor.Prelude.Int.{ℤ}

-- `AttributeValue`, by whether it is a text.
pub data Attribute : Type 0 where
  s other : Text → Attribute

-- `HashMap<String, AttributeValue>`
abbrev pub Item : Type 0
Item = Text → Option Attribute

-- `SdkError`: its text, that of the service's error in it, and whether that is a failed condition.
pub record SdkError : Type 0 where
  pub display : Text
  pub service_display : Text
  pub is_conditional_check_failed : Bool

pub data Answer (A : Type 0) : Type 0 where
  done : A → Answer A
  failed : SdkError → Answer A

pub record Client (S : Type 0) : Type 0 where
  -- table, item and condition
  pub put_item : Text → Item → Option Text → S → Answer (Unit {0}) × S
  -- table and key
  pub get_item : Text → Text × Attribute → S → Answer (Option Item) × S
  -- table; the first page
  pub scan : Text → S → Answer (List Item) × S
  -- table, key, update, name, value and condition; the new attributes
  pub update_item :
      Text
      → Text × Attribute
      → Text
      → Text × Text
      → Text × Attribute
      → Text
      → S
      → Answer (Option Item) × S
  -- table, key condition, value, `scan_index_forward` and limit; the first page
  pub query : Text → Text → Text × Attribute → Bool → ℤ → S → Answer (List Item) × S
