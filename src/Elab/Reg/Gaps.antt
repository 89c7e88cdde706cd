-- ===== src/Elab/Reg/Gaps.antt =====
-- `find_register_gaps`, `detect_and_fill_register_gaps`, `create_reserved_field` and
-- `generate_reserved_field_name` in elaborator.cpp. A register's width fits 32 bits, so no bit
-- position wraps.
pub mod Coverage
pub mod Runs
pub mod Fill
use systemrdl_toolkit.Base.{
  ℕ, zero, suc, ◌+◌, ◌-◌, Bool, true, false, not, ◌&&◌, List, [], ◌∷◌, ◌++◌, Bytes, codes, ltb, leb,
  ◌==◌, if◌then◌else◌, set, replicate, to_string, none,
}
use systemrdl_toolkit.Elab.Model.{
  Field, FieldInfo, NodeInfo, Node, Nodes, node, nil, field, PropertyValue, text, integer, boolean,
  set_property, read_only, no_access, fields_of, add_child, RegInfo,
}

-- The loop that marks the bits of one field, with the rounds that are left.
unfoldable pub mark_bits : ℕ → ℕ → ℕ → ℕ → List Bool → List Bool
mark_bits zero bit msb width coverage = coverage
mark_bits (suc rounds) bit msb width coverage =
    let more = mark_bits rounds (suc bit) msb width (set coverage bit true) in
    if leb bit msb && ltb bit width then more else coverage

-- Each round raises `bit` below `width`, so `width` rounds are enough.
unfoldable pub mark_fields : ℕ → List Field → List Bool → List Bool
mark_fields width [] coverage = coverage
mark_fields width (f ∷ fields) coverage =
    mark_fields width fields (mark_bits width f.field.lsb f.field.msb width coverage)

unfoldable pub bit_coverage : ℕ → List Field → List Bool
unfolding mark_fields mark_bits
bit_coverage width fields = mark_fields width fields (replicate width false)

-- most significant bit first, as the source's pairs
pub record Gap : Type 0 where
  pub msb : ℕ
  pub lsb : ℕ

pub record GapScan : Type 0 where
  pub gaps : List Gap
  pub gap_start : ℕ
  pub in_gap : Bool

unfoldable pub gap_step : ℕ → Bool → GapScan → GapScan
gap_step bit covered st =
    if not covered
    then (if not st.in_gap then record st { gap_start = bit; in_gap = true } else st)
    else (if st.in_gap
        then record st {
          gaps = st.gaps ++ record { msb = bit - 1; lsb = st.gap_start } ∷ [];
          in_gap = false;
        }
        else st)

-- the loop over the bits from `bit` on
unfoldable pub gap_scan : ℕ → List Bool → GapScan → GapScan
gap_scan bit [] st = st
gap_scan bit (covered ∷ coverage) st = gap_scan (suc bit) coverage (gap_step bit covered st)

-- the gap that reaches the end of the register
unfoldable pub gap_finish : ℕ → GapScan → List Gap
gap_finish width st =
    if st.in_gap then st.gaps ++ record { msb = width - 1; lsb = st.gap_start } ∷ [] else st.gaps

unfoldable pub find_register_gaps : ℕ → List Field → List Gap
unfolding bit_coverage gap_scan gap_step gap_finish
find_register_gaps width fields =
    gap_finish width
      (gap_scan 0 (bit_coverage width fields) (record { gaps = []; gap_start = 0; in_gap = false }))

unfoldable pub generate_reserved_field_name : ℕ → ℕ → Bytes
generate_reserved_field_name msb lsb =
    if msb == lsb
    then codes "RESERVED_" ++ to_string lsb
    else codes "RESERVED_" ++ (to_string msb ++ (codes "_" ++ to_string lsb))

abbrev pub reserved_width : ℕ → ℕ → ℕ
reserved_width msb lsb = if leb lsb msb then msb - lsb + 1 else 0

-- the field's own members, and its node but for the place in the tree
unfoldable pub create_reserved_field : ℕ → ℕ → Bytes → Field
create_reserved_field msb lsb name = record {
  info = record {
    inst_name = name;
    type_name = codes "field";
    absolute_address = 0;
    size = 0;
    source_ctx = none;
    array_dimensions = [];
    array_indices = [];
    properties = set_property (codes "reserved") (boolean true) (
        set_property (codes "desc") (text (codes "Reserved field - auto-generated")) (
          set_property (codes "reset") (integer 0) (
            set_property (codes "hw") (text (codes "na")) (
              set_property (codes "sw") (text (codes "r")) (
                set_property (codes "width") (integer (reserved_width msb lsb)) (
                  set_property (codes "lsb") (integer lsb)
                    (set_property (codes "msb") (integer msb) [])))))));
  };
  field = record {
    msb = msb;
    lsb = lsb;
    width = reserved_width msb lsb;
    reset_value = 0;
    sw_access = read_only;
    hw_access = no_access;
  };
}

-- the loop over the gaps; a reserved field lies at the register's address
unfoldable pub fill_gaps : ℕ → List Gap → Nodes → Nodes
unfolding create_reserved_field generate_reserved_field_name add_child
fill_gaps address [] children = children
fill_gaps address (gap ∷ gaps) children =
    let f = create_reserved_field gap.msb gap.lsb (generate_reserved_field_name gap.msb gap.lsb) in
    fill_gaps address gaps
      (add_child children (node (record f.info { absolute_address = address }) (field f.field) nil))

unfoldable pub detect_and_fill_register_gaps : RegInfo → NodeInfo → Nodes → Nodes
unfolding find_register_gaps fill_gaps fields_of
detect_and_fill_register_gaps r info children =
    fill_gaps info.absolute_address (find_register_gaps r.register_width (fields_of children))
      children
