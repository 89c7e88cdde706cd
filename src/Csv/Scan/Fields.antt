-- ===== src/Csv/Scan/Fields.antt =====
-- `split_csv_line` against a printer that puts every field in double quotes.
use systemrdl_toolkit.Base.{
  ℕ, ◌≡◌, ◌≢◌, inl, inr, refl, ◌∙◌, true, false, List, [], ◌∷◌, ◌++◌, Bytes, arith, ◌==◌, ==_iff,
  if◌then◌else◌, append_assoc, append-nil, Bool-cases,
}
use systemrdl_toolkit.Csv.Scan.{
  FieldScan, next_is, field_step, field_scan, field_start, split_csv_line,
}

-- a field's bytes with each double quote written twice, and then `rest`
abbrev pub doubled : Bytes → Bytes → Bytes
doubled [] rest = rest
doubled (c ∷ s) rest = if c == 34 then 34 ∷ 34 ∷ doubled s rest else c ∷ doubled s rest

-- a field in double quotes, and then `rest`
abbrev pub quoted : Bytes → Bytes → Bytes
quoted s rest = 34 ∷ doubled s (34 ∷ rest)

-- the fields of a row in quotes with the delimiter between, and then `rest`
abbrev pub print_row : ℕ → Bytes → List Bytes → Bytes → Bytes
print_row d s [] rest = quoted s rest
print_row d s (t ∷ ts) rest = quoted s (d ∷ print_row d t ts rest)

-- the reader inside double quotes, after `cur` of a field
abbrev inside : List Bytes → Bytes → FieldScan
inside done cur = record {
  fields = done;
  current_field = cur;
  in_double_quotes = true;
  in_single_quotes = false;
  skip = false;
}

-- the reader behind the closing quote
abbrev behind : List Bytes → Bytes → FieldScan
behind done cur = record {
  fields = done;
  current_field = cur;
  in_double_quotes = false;
  in_single_quotes = false;
  skip = false;
}

field_scan_plain :
    (d c : ℕ) (rest : Bytes) (done : List Bytes) (cur : Bytes)
    → (c == 34) ≡ false
    → field_scan d (c ∷ rest) (inside done cur) ≡ field_scan d rest (inside done (cur ++ c ∷ []))
unfolding field_scan field_step
field_scan_plain d c rest done cur h = ground arith

field_scan_pair :
    (d : ℕ) (rest : Bytes) (done : List Bytes) (cur : Bytes)
    → field_scan d (34 ∷ 34 ∷ rest) (inside done cur)
      ≡ field_scan d rest (inside done (cur ++ 34 ∷ []))
unfolding field_scan field_step
field_scan_pair d rest done cur = refl

field_scan_close :
    (d : ℕ) (rest : Bytes) (done : List Bytes) (cur : Bytes)
    → next_is 34 rest ≡ false
    → field_scan d (34 ∷ rest) (inside done cur) ≡ field_scan d rest (behind done cur)
unfolding field_scan field_step
field_scan_close d rest done cur h = rw h

field_scan-doubled :
    (d : ℕ) (s rest : Bytes) (done : List Bytes) (cur : Bytes)
    → next_is 34 rest ≡ false
    → field_scan d (doubled s (34 ∷ rest)) (inside done cur)
      ≡ field_scan d rest (behind done (cur ++ s))
field_scan-doubled d [] rest done cur h = rw append-nil (field_scan_close d rest done cur h)
field_scan-doubled d (c ∷ s) rest done cur h = elim (Bool-cases (c == 34)) [
  | inl q ↦ rw q (
      field_scan_pair d _ done cur
      ∙ field_scan-doubled d s rest done (cur ++ 34 ∷ []) h
      ∙ rw (append_assoc, (==_iff c 34).0 q))
  | inr q ↦ rw q (
      field_scan_plain d c _ done cur q
      ∙ field_scan-doubled d s rest done (cur ++ c ∷ []) h
      ∙ rw append_assoc)
]

field_scan-quoted :
    (d : ℕ) (s rest : Bytes) (done : List Bytes)
    → next_is 34 rest ≡ false
    → field_scan d (quoted s rest) (field_start done) ≡ field_scan d rest (behind done s)
unfolding field_scan field_step
field_scan-quoted d s rest done h = field_scan-doubled d s rest done [] h

field_scan-delimiter :
    (d : ℕ) (rest : Bytes) (done : List Bytes) (s : Bytes)
    → (d == 34) ≡ false
    → (d == 39) ≡ false
    → field_scan d (d ∷ rest) (behind done s) ≡ field_scan d rest (field_start (done ++ s ∷ []))
unfolding field_scan field_step
field_scan-delimiter d rest done s h k = ground arith

field_scan-print_row :
    (d : ℕ) (s : Bytes) (ts : List Bytes) (done : List Bytes)
    → (d == 34) ≡ false
    → (d == 39) ≡ false
    → let st = field_scan d (print_row d s ts []) (field_start done) in
      st.fields ++ st.current_field ∷ [] ≡ done ++ s ∷ ts
field_scan-print_row d s [] done h k =
    rw (field_scan-quoted d s [] done refl) (unfold field_scan in refl)
field_scan-print_row d s (t ∷ ts) done h k =
    rw
      (
        field_scan-quoted d s (d ∷ print_row d t ts []) done h,
        field_scan-delimiter d (print_row d t ts []) done s h k,
      )
      (field_scan-print_row d t ts (done ++ s ∷ []) h k ∙ append_assoc done (s ∷ []) (t ∷ ts))

-- Splitting a row whose fields stand in double quotes, with each double quote inside them
-- written twice, gives the fields back, for any delimiter that is no quote.
pub split_csv_line-print_row :
    (d : ℕ) (s : Bytes) (ts : List Bytes)
    → d ≢ 34
    → d ≢ 39
    → split_csv_line (print_row d s ts []) d ≡ s ∷ ts
unfolding split_csv_line
split_csv_line-print_row d s ts h k = field_scan-print_row d s ts [] (ground arith) (ground arith)
