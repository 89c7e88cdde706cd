-- ===== src/Csv/Scan/Lines.antt =====
-- `parse_csv_content` on lines whose quotes close.
use systemrdl_toolkit.Base.{
  ℕ, ◌≡◌, ◌≢◌, refl, ap, ◌∙◌, Bool, true, false, not, ◌&&◌, List, [], ◌∷◌, ◌++◌, Bytes, arith, All,
  ◌==◌, if◌then◌else◌, append_assoc, append-nil,
}
use systemrdl_toolkit.Csv.Scan.{
  LineScan, line_step, line_scan, line_finish, line_start, parse_csv_content,
}

-- A text whose quotes all close, read from the given state, with no newline outside them.
unfoldable pub closes : Bool → Bool → Bytes → Bool
closes dq sq [] = not dq && not sq
closes dq sq (c ∷ t) =
    not (c == 10 && (not dq && not sq))
    && closes (if c == 34 && not sq then not dq else dq) (if c == 39 && not dq then not sq else sq)
        t

abbrev reading : List Bytes → Bytes → Bool → Bool → LineScan
reading done cur dq sq = record {
  lines = done;
  current_line = cur;
  in_double_quotes = dq;
  in_single_quotes = sq;
}

line_step-closes :
    (c : ℕ) (t : Bytes) (done : List Bytes) (cur : Bytes) (dq sq : Bool)
    → closes dq sq (c ∷ t) ≡ true
    → line_step c (reading done cur dq sq)
      ≡ reading done
          (cur ++ c ∷ [])
          (if c == 34 && not sq then not dq else dq)
          (if c == 39 && not dq then not sq else sq)
unfolding line_step closes
line_step-closes c t done cur dq sq h = ground arith

closes_outside : (dq sq : Bool) → closes dq sq [] ≡ true → (dq ≡ false) × (sq ≡ false)
unfolding closes
closes_outside dq sq h = ground arith

closes-cons :
    (c : ℕ) (t : Bytes) (dq sq : Bool)
    → closes dq sq (c ∷ t) ≡ true
    → closes (if c == 34 && not sq then not dq else dq) (if c == 39 && not dq then not sq else sq) t
      ≡ true
unfolding closes
closes-cons c t dq sq h = ground arith

line_scan-closes :
    (t rest : Bytes) (done : List Bytes) (cur : Bytes) (dq sq : Bool)
    → closes dq sq t ≡ true
    → line_scan (t ++ rest) (reading done cur dq sq)
      ≡ line_scan rest (reading done (cur ++ t) false false)
unfolding line_scan
line_scan-closes [] rest done cur dq sq h =
    rw (append-nil cur, (closes_outside dq sq h).0, (closes_outside dq sq h).1)
line_scan-closes (c ∷ t) rest done cur dq sq h =
    ap (line_scan (t ++ rest)) (line_step-closes c t done cur dq sq h)
    ∙ line_scan-closes t rest done (cur ++ c ∷ []) _ _ (closes-cons c t dq sq h)
    ∙ rw append_assoc

-- the lines of a file, each with its newline
abbrev pub unlines : List Bytes → Bytes
unlines [] = []
unlines (l ∷ ls) = l ++ 10 ∷ unlines ls

-- a line that the reader can keep whole: not empty, its quotes closed
abbrev pub IsLine : Bytes → Type 0
IsLine l = (l ≢ []) × (closes false false l ≡ true)

line_step_newline :
    (l : Bytes) (done : List Bytes)
    → l ≢ []
    → line_step 10 (reading done l false false) ≡ line_start (done ++ l ∷ [])
unfolding line_step
line_step_newline [] done h = absurd (h refl)
line_step_newline (c ∷ l) done h = refl

line_scan-unlines :
    (ls : List Bytes) (done : List Bytes)
    → All IsLine ls
    → line_scan (unlines ls) (line_start done) ≡ line_start (done ++ ls)
unfolding line_scan
line_scan-unlines [] done h = rw append-nil
line_scan-unlines (l ∷ ls) done h =
    line_scan-closes l (10 ∷ unlines ls) done [] false false h.0.1
    ∙ ap (line_scan (unlines ls)) (line_step_newline l done h.0.0)
    ∙ line_scan-unlines ls (done ++ l ∷ []) h.1
    ∙ rw append_assoc

-- A file of lines that are not empty and close their quotes is cut into those lines, whatever
-- newlines stand inside the quotes.
pub parse_csv_content-unlines :
    (ls : List Bytes) → All IsLine ls → parse_csv_content (unlines ls) ≡ ls
unfolding parse_csv_content
parse_csv_content-unlines ls h = rw (line_scan-unlines ls [] h) (unfold line_finish in refl)
