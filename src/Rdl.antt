-- ===== src/Rdl.antt =====
-- The class `RDLGenerator` in systemrdl_api.cpp: SystemRDL text from CSV rows. `rdl` is the text
-- written to the string stream so far.
pub mod Strings
pub mod Tree
pub mod Refines
use systemrdl_toolkit.Base.{
  ℕ, ◌+◌, ◌-◌, ◌/◌, ◌%◌, Bool, true, false, not, ◌&&◌, ◌||◌, List, [], ◌∷◌, ◌++◌, Bytes, codes,
  is_empty, eq_bytes, take, ltb, leb, ◌==◌, if◌then◌else◌,
}
use systemrdl_toolkit.Csv.Clean.{to_lower, to_upper}
use systemrdl_toolkit.Csv.Row.{CsvRow}
use systemrdl_toolkit.Csv.Validate.{is_addrmap_row, is_reg_row, is_field_row}

unfoldable pub format_address : Bytes → Bytes
format_address addr =
    if is_empty addr
    then codes "0x0000"
    else if eq_bytes (take 2 addr) (codes "0x") || eq_bytes (take 2 addr) (codes "0X")
    then addr
    else codes "0x" ++ addr

abbrev pub hex_digit : ℕ → ℕ
hex_digit n = if ltb n 10 then b'0' + n else b'a' + (n - 10)

-- what `escape_string` writes for one byte
unfoldable pub escape_char : ℕ → Bytes
escape_char c =
    if c == 34
    then 92 ∷ 34 ∷ []
    else if c == 92
    then 92 ∷ 92 ∷ []
    else if c == 10
    then 10 ∷ []
    else if c == 13
    then []
    else if c == 9
    then 92 ∷ b't' ∷ []
    else if ltb c 32 || leb 127 c
    then 92 ∷ b'x' ∷ hex_digit (c / 16) ∷ hex_digit (c % 16) ∷ []
    else c ∷ []

unfoldable pub escape_string : Bytes → Bytes
unfolding escape_char
escape_string [] = []
escape_string (c ∷ s) = escape_char c ++ escape_string s

unfoldable pub map_access_to_systemrdl : Bytes → Bytes
unfolding to_upper eq_bytes
map_access_to_systemrdl csv_access =
    let upper_access = to_upper csv_access in
    if eq_bytes upper_access (codes "RW")
    then codes "rw"
    else if eq_bytes upper_access (codes "RO")
    then codes "r"
    else if eq_bytes upper_access (codes "WO")
    then codes "w"
    else if eq_bytes upper_access (codes "NA")
    then codes "na"
    else csv_access

-- `    } reg @ address;` and an empty line
unfoldable pub close_reg : Bytes → Bytes → Bytes
unfolding format_address
close_reg current_reg current_reg_offset =
    codes "    } "
    ++ (current_reg ++ (codes " @ " ++ (format_address current_reg_offset ++ codes ";\n\n")))

-- a property line whose value is a string literal
abbrev text_property : Bytes → Bytes → Bytes
text_property start value = start ++ (34 ∷ (escape_string value ++ codes "\";\n"))

abbrev if_given : Bytes → Bytes → Bytes
if_given value line = if is_empty value then [] else line

-- the head of an address map
unfoldable pub open_addrmap : CsvRow → Bytes
unfolding escape_string
open_addrmap row =
    codes "addrmap "
    ++ (row.addrmap_name
        ++ (codes " {\n"
            ++ (text_property (codes "    name = ") row.addrmap_name
                ++ (if_given row.description (text_property (codes "    desc = ") row.description)
                    ++ codes "\n"))))

-- the head of a register
unfoldable pub open_reg : CsvRow → Bytes
unfolding escape_string
open_reg row =
    codes "    reg {\n"
    ++ (text_property (codes "        name = ") row.reg_name
        ++ (if_given row.description (text_property (codes "        desc = ") row.description)
            ++ (if_given row.reg_width
                  (codes "        regwidth = " ++ (row.reg_width ++ codes ";\n"))
                ++ codes "\n")))

-- a whole field
unfoldable pub write_field : CsvRow → Bytes
unfolding escape_string map_access_to_systemrdl
write_field row =
    codes "        field {\n"
    ++ (text_property (codes "            name = ") row.field_name
        ++ (if_given row.description (text_property (codes "            desc = ") row.description)
            ++ (if_given row.sw_access (
                  codes "            sw = "
                  ++ (map_access_to_systemrdl row.sw_access ++ codes ";\n"))
                ++ (if_given row.hw_access (
                      codes "            hw = "
                      ++ (map_access_to_systemrdl row.hw_access ++ codes ";\n"))
                    ++ (if_given row.onread
                          (codes "            onread = " ++ (to_lower row.onread ++ codes ";\n"))
                        ++ (if_given row.onwrite (
                              codes "            onwrite = "
                              ++ (to_lower row.onwrite ++ codes ";\n"))
                            ++ (codes "        } "
                                ++ (row.field_name
                                    ++ ((if not (is_empty row.field_lsb)
                                            && not (is_empty row.field_msb)
                                          then codes "["
                                            ++ (row.field_msb
                                                ++ (codes ":" ++ (row.field_lsb ++ codes "]")))
                                          else [])
                                        ++ (if_given row.reset_value
                                              (codes " = " ++ row.reset_value)
                                            ++ codes ";\n\n"))))))))))

-- the members of the generator and the variables of `generate`
pub record Generator : Type 0 where
  pub rdl : Bytes
  pub current_addrmap : Bytes
  pub current_reg : Bytes
  pub in_reg : Bool
  pub current_addrmap_offset : Bytes
  pub current_reg_offset : Bytes

-- the register that is still open is closed
abbrev pub closed_reg : Generator → Bytes
closed_reg g = if g.in_reg then g.rdl ++ close_reg g.current_reg g.current_reg_offset else g.rdl

unfoldable pub generate_row : CsvRow → Generator → Generator
unfolding close_reg open_addrmap open_reg write_field
generate_row row g =
    if is_addrmap_row row
    then (let closed = closed_reg g in
        record g {
          rdl =
              (if is_empty g.current_addrmap then closed else closed ++ codes "};\n\n")
              ++ open_addrmap row;
          in_reg = false;
          current_addrmap = row.addrmap_name;
          current_addrmap_offset = row.addrmap_offset;
        })
    else if is_reg_row row
    then record g {
      rdl = closed_reg g ++ open_reg row;
      current_reg = row.reg_name;
      current_reg_offset = row.reg_offset;
      in_reg = true;
    }
    else if is_field_row row && g.in_reg
    then record g { rdl = g.rdl ++ write_field row }
    else g

unfoldable pub generate_rows : List CsvRow → Generator → Generator
generate_rows [] g = g
generate_rows (row ∷ rows) g = generate_rows rows (generate_row row g)

abbrev pub generator_start : Generator
generator_start = record {
  rdl = [];
  current_addrmap = [];
  current_reg = [];
  in_reg = false;
  current_addrmap_offset = [];
  current_reg_offset = [];
}

-- what stands behind the loop
unfoldable pub generate_end : Generator → Bytes
unfolding close_reg
generate_end g = if is_empty g.current_addrmap then closed_reg g else closed_reg g ++ codes "};\n"

unfoldable pub generate : List CsvRow → Bytes
unfolding generate_rows generate_row generate_end
generate rows = generate_end (generate_rows rows generator_start)
