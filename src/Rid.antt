-- ===== src/Rid.antt =====
-- MiniDB/include/common/rid.h: the record identifier.
use altas_dbpro.Prelude.{◌≡◌, ◌↔◌, Bool, true, ◌&&◌, not, arith, Eq, ◌==◌}
use altas_dbpro.Prelude.Ints.{ℤ, pos, negsuc, int_eq, eqb_ℤ_iff, ltb_ℤ}

pub record Rid : Type 0 where
  pub page_id : ℤ
  pub slot_num : ℤ

-- `RID()`.
abbrev pub no_rid : Rid
no_rid = record { page_id = negsuc 0; slot_num = negsuc 0 }

-- `operator==`.
unfoldable pub rid_eqb : Rid → Rid → Bool
rid_eqb a b = a.page_id == b.page_id && a.slot_num == b.slot_num

-- `IsValid`.
unfoldable pub is_valid : Rid → Bool
unfolding ltb_ℤ
is_valid r = not (ltb_ℤ r.page_id (pos 0)) && not (ltb_ℤ r.slot_num (pos 0))

pub rid_eqb_iff : (a b : Rid) → (rid_eqb a b ≡ true) ↔ (a ≡ b)
unfolding rid_eqb
rid_eqb_iff a b = ground (arith, eqb_ℤ_iff a.page_id b.page_id, eqb_ℤ_iff a.slot_num b.slot_num)

instance abbrev pub rid_eq : Eq Rid
rid_eq = record { eqb = rid_eqb; eqb_iff = rid_eqb_iff }
