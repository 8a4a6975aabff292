-- ===== src/Sync/Tests.antt =====
-- The decision at a concrete anchor.
use zmem_cache.Sync.Decision.{IsUnder, select_sync_iff}
use zmem_cache.Common.{◌≡◌, ◌↔◌, ◌≢◌, Option, codes, some, true}
use zmem_cache.Sync.{incremental, Anchor, current, select_sync}

abbrev stored : Option Anchor
stored = some (record {
  head = codes "a1";
  schema = 6;
  extension_hash = codes "ext";
  attention_identity = codes "view";
})

select_sync_iff_example :
    ((select_sync stored (codes "b2") 6 (codes "ext") (codes "view") true ≡ current) ↔ (
      (a : Anchor) × (stored ≡ some a)
      × IsUnder a 6 (codes "ext") (codes "view")
      × (a.head ≡ codes "b2")))
    × ((select_sync stored (codes "b2") 6 (codes "ext") (codes "view") true ≡ incremental) ↔ (
        (a : Anchor) × (stored ≡ some a)
        × IsUnder a 6 (codes "ext") (codes "view")
        × (a.head ≢ codes "b2")
        × (true ≡ true)))
select_sync_iff_example = select_sync_iff stored (codes "b2") 6 (codes "ext") (codes "view") true
