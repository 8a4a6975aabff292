-- ===== src/Sync.antt =====
-- How a stored anchor decides a synchronization: `Anchor`, `SyncDecision` and `select_sync` of
-- crates/zmem-core/src/lib.rs. Whether the anchor is an ancestor is what git answers, an argument.
pub mod Decision
pub mod Tests
use zmem_cache.Common.{
  none, not, if◌then◌else◌, if◌then◌else◌, ℕ, ◌||◌, Bool, Option, Text, ◌==◌, some, if◌then◌else◌,
  text_eq,
}

pub record Anchor : Type 0 where
  pub head : Text
  pub schema : ℕ
  pub extension_hash : Text
  pub attention_identity : Text

pub data SyncDecision : Type 0 where
  current incremental rebuild : SyncDecision

-- The three fields that the second test compares.
abbrev pub differs : Anchor → ℕ → Text → Text → Bool
differs anchor schema extension_hash attention_identity =
    not (anchor.schema == schema)
    || (not (text_eq anchor.extension_hash extension_hash)
        || not (text_eq anchor.attention_identity attention_identity))

unfoldable pub select_sync : Option Anchor → Text → ℕ → Text → Text → Bool → SyncDecision
select_sync none requested_head schema extension_hash attention_identity anchor_is_ancestor =
    rebuild
select_sync (some anchor) requested_head schema extension_hash attention_identity
      anchor_is_ancestor =
    if differs anchor schema extension_hash attention_identity
    then rebuild
    else if text_eq anchor.head requested_head
    then current
    else if anchor_is_ancestor
    then incremental
    else rebuild
