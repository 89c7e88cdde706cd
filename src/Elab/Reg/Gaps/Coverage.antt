-- ===== src/Elab/Reg/Gaps/Coverage.antt =====
-- The coverage vector marks the bits of the fields, and no others.
use systemrdl_toolkit.Base.{
  ℕ, zero, suc, ◌+◌, ◌≤◌, ◌<◌, ◌≡◌, refl, ◌∙◌, Bool, true, false, ◌&&◌, ◌||◌, List, [], ◌∷◌, arith,
  ltb, leb, if◌then◌else◌, set, replicate, length, length-set, length-replicate, get_or,
  get_or-set_self, get_or-set_ne, get_or-replicate,
}
use systemrdl_toolkit.Elab.Model.{Field}
use systemrdl_toolkit.Elab.Reg.Gaps.{mark_bits, mark_fields, bit_coverage}

-- bit `b` lies in the range of the field
abbrev pub covers : ℕ → Field → Bool
covers b f = leb f.field.lsb b && leb b f.field.msb

-- how many of the fields hold bit `b`
unfoldable pub covering : ℕ → List Field → ℕ
covering b [] = 0
covering b (f ∷ fields) = (if covers b f then 1 else 0) + covering b fields

abbrev any_covers : ℕ → List Field → Bool
any_covers b [] = false
any_covers b (f ∷ fields) = covers b f || any_covers b fields

length-mark_bits :
    (rounds bit msb width : ℕ) (coverage : List Bool)
    → length (mark_bits rounds bit msb width coverage) ≡ length coverage
unfolding mark_bits
length-mark_bits zero bit msb width coverage = refl
length-mark_bits (suc rounds) bit msb width coverage = ground (
  arith,
  length-mark_bits rounds (suc bit) msb width (set coverage bit true),
  length-set coverage bit true,
)

mark_bits_lem :
    (rounds bit msb width b : ℕ) (coverage : List Bool)
    → width ≤ bit + rounds
    → b < width
    → length coverage ≡ width
    → get_or (mark_bits rounds bit msb width coverage) b false
      ≡ (get_or coverage b false || (leb bit b && leb b msb))
unfolding mark_bits
mark_bits_lem zero bit msb width b coverage enough below len = ground arith
mark_bits_lem (suc rounds) bit msb width b coverage enough below len = ground (
  arith,
  mark_bits_lem rounds (suc bit) msb width b (set coverage bit true),
  length-set coverage bit true,
  get_or-set_self coverage bit true false,
  get_or-set_ne coverage bit b true false,
)

mark_fields_lem :
    (width b : ℕ) (fields : List Field) (coverage : List Bool)
    → b < width
    → length coverage ≡ width
    → get_or (mark_fields width fields coverage) b false
      ≡ (get_or coverage b false || any_covers b fields)
unfolding mark_fields
mark_fields_lem width b [] coverage below len = ground arith
mark_fields_lem width b (f ∷ fields) coverage below len = ground (
  arith,
  mark_fields_lem width b fields (mark_bits width f.field.lsb f.field.msb width coverage) below,
  length-mark_bits width f.field.lsb f.field.msb width coverage,
  mark_bits_lem width f.field.lsb f.field.msb width b coverage,
)

any_covers-covering :
    (b : ℕ) (fields : List Field) → any_covers b fields ≡ ltb 0 (covering b fields)
unfolding covering
any_covers-covering b [] = refl
any_covers-covering b (f ∷ fields) = ground (arith, any_covers-covering b fields)

length-mark_fields :
    (width : ℕ) (fields : List Field) (coverage : List Bool)
    → length (mark_fields width fields coverage) ≡ length coverage
unfolding mark_fields
length-mark_fields width [] coverage = refl
length-mark_fields width (f ∷ fields) coverage =
    length-mark_fields width fields _
    ∙ length-mark_bits width f.field.lsb f.field.msb width coverage

pub length-bit_coverage :
    (width : ℕ) (fields : List Field) → length (bit_coverage width fields) ≡ width
unfolding bit_coverage
length-bit_coverage width fields =
    length-mark_fields width fields (replicate width false) ∙ length-replicate width false

pub bit_coverage_lem :
    (width b : ℕ) (fields : List Field)
    → b < width
    → get_or (bit_coverage width fields) b false ≡ ltb 0 (covering b fields)
unfolding bit_coverage
bit_coverage_lem width b fields below = ground (
  arith,
  mark_fields_lem width b fields (replicate width false) below (length-replicate width false),
  get_or-replicate width b false false below,
  any_covers-covering b fields,
)
