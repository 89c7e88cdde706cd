-- ===== src/Elab/Reg/Reset/Loops.antt =====
-- The loops that write the digits of a field's reset value into those of the register.
use systemrdl_toolkit.Base.{
  ℕ, zero, suc, ◌+◌, ◌-◌, ◌<◌, ◌≡◌, refl, sym, ap, ◌∙◌, Bool, true, false, ◌&&◌, Bytes, ltb, leb,
  ◌==◌, if◌then◌else◌, length, length-set, set, get_or, get_or-set_self, get_or-set_ne, arith, inl,
  inr, subst, Bool-cases, ==_iff, ltb→lt,
}
use systemrdl_toolkit.Elab.Reg.Reset.{has_bit, binary_bits, copy_bits}

-- A loop over the places that overwrites the place `i` before it goes on: the place `b` in the end.
range_step :
    (writes : ℕ → Bool) (v : ℕ → ℕ) (i rounds b old : ℕ)
    → (if (leb (suc i) b && ltb b (suc i + rounds)) && writes b
        then v b
        else (if (i == b) && writes i then v i else old))
      ≡ (if (leb i b && ltb b (i + suc rounds)) && writes b then v b else old)
range_step writes v i rounds b old = elim (Bool-cases (i == b)) [
  | inl same ↦
      subst
        (λ n.
          (if (leb (suc n) b && ltb b (suc n + rounds)) && writes b
            then v b
            else (if (n == b) && writes n then v n else old))
          ≡ (if (leb n b && ltb b (n + suc rounds)) && writes b then v b else old))
        (sym ((==_iff i b).0 same)) (ground arith)
  | inr other ↦ ground arith
]

out_of_range :
    (t : Bool) (i n b width v old : ℕ)
    → ltb i width ≡ false
    → b < width
    → old ≡ (if (leb i b && ltb b n) && t then v else old)
out_of_range t i n b width v old outside below = ground arith

range_step_lsb :
    (v : ℕ → ℕ) (lsb i fw b old : ℕ)
    → lsb + i < lsb + fw
    → (if leb (lsb + suc i) b && ltb b (lsb + fw)
        then v (b - lsb)
        else (if ((lsb + i) == b) && true then v i else old))
      ≡ (if leb (lsb + i) b && ltb b (lsb + fw) then v (b - lsb) else old)
range_step_lsb v lsb i fw b old h = elim (Bool-cases ((lsb + i) == b)) [
  | inl same ↦ let e : b - lsb ≡ i = ground arith in rw e (ground arith)
  | inr other ↦ ground arith
]

-- one place of a string, after a write from the right end or none
get_or-written :
    (t : Bool) (s : Bytes) (width i b v : ℕ)
    → length s ≡ width
    → i < width
    → b < width
    → get_or (if t then set s (width - 1 - i) v else s) (width - 1 - b) b'0'
      ≡ (if (i == b) && t then v else get_or s (width - 1 - b) b'0')
get_or-written true s width i b v len hi hb = ground (
  arith,
  get_or-set_self s (width - 1 - i) v b'0',
  get_or-set_ne s (width - 1 - i) (width - 1 - b) v b'0',
)
get_or-written false s width i b v len hi hb = ground arith

length-written :
    (t : Bool) (s : Bytes) (width i v : ℕ)
    → length s ≡ width
    → length (if t then set s i v else s) ≡ width
length-written true s width i v len = length-set s i v ∙ len
length-written false s width i v len = len

pub length-binary_bits :
    (rounds i value width : ℕ) (binary : Bytes)
    → length (binary_bits rounds i value width binary) ≡ length binary
unfolding binary_bits
length-binary_bits zero i value width binary = refl
length-binary_bits (suc rounds) i value width binary = ground (
  arith,
  length-binary_bits rounds (suc i) value width (set binary (width - 1 - i) b'1'),
  length-binary_bits rounds (suc i) value width binary,
  length-set binary (width - 1 - i) b'1',
)

pub binary_bits_lem :
    (rounds i value width b : ℕ) (binary : Bytes)
    → b < width
    → length binary ≡ width
    → get_or (binary_bits rounds i value width binary) (width - 1 - b) b'0' ≡ (
        if (leb i b && ltb b (i + rounds)) && has_bit value b
        then b'1'
        else get_or binary (width - 1 - b) b'0')
unfolding binary_bits
binary_bits_lem zero i value width b binary below len = ground arith
binary_bits_lem (suc rounds) i value width b binary below len = elim (Bool-cases (ltb i width)) [
  | inl inside ↦ rw inside (
      binary_bits_lem rounds (suc i) value width b _ below
        (length-written (has_bit value i) binary width (width - 1 - i) b'1' len)
      ∙ ap
          (λ old.
            if (leb (suc i) b && ltb b (suc i + rounds)) && has_bit value b then b'1' else old)
          (get_or-written (has_bit value i) binary width i b b'1' len (ltb→lt i width inside) below)
      ∙ range_step (has_bit value) (λ n. b'1') i rounds b _)
  | inr outside ↦
      rw outside (out_of_range (has_bit value b) i (i + suc rounds) b width b'1' _ outside below)
]

pub length-copy_bits :
    (rounds i fw lsb width : ℕ) (binary bits : Bytes)
    → length (copy_bits rounds i fw lsb width binary bits) ≡ length bits
unfolding copy_bits
length-copy_bits zero i fw lsb width binary bits = refl
length-copy_bits (suc rounds) i fw lsb width binary bits = ground (
  arith,
  length-copy_bits rounds (suc i) fw lsb width binary
      (set bits (width - 1 - (lsb + i)) (get_or binary (fw - 1 - i) b'0')),
  length-set bits (width - 1 - (lsb + i)) (get_or binary (fw - 1 - i) b'0'),
)

pub copy_bits_lem :
    (rounds i fw lsb width b : ℕ) (binary bits : Bytes)
    → i + rounds ≡ fw
    → b < width
    → length bits ≡ width
    → get_or (copy_bits rounds i fw lsb width binary bits) (width - 1 - b) b'0' ≡ (
        if leb (lsb + i) b && ltb b (lsb + fw)
        then get_or binary (fw - 1 - (b - lsb)) b'0'
        else get_or bits (width - 1 - b) b'0')
unfolding copy_bits
copy_bits_lem zero i fw lsb width b binary bits e below len = ground arith
copy_bits_lem (suc rounds) i fw lsb width b binary bits e below len =
    elim (Bool-cases (ltb (lsb + i) width)) [
      | inl inside ↦ rw inside (
          copy_bits_lem rounds (suc i) fw lsb width b binary _ (omega arith) below
            (length-set bits _ _ ∙ len)
          ∙ ap
              (λ old.
                if leb (lsb + suc i) b && ltb b (lsb + fw)
                then get_or binary (fw - 1 - (b - lsb)) b'0'
                else old)
              (get_or-written true bits width (lsb + i) b (get_or binary (fw - 1 - i) b'0') len
                (ltb→lt (lsb + i) width inside) below)
          ∙ range_step_lsb (λ n. get_or binary (fw - 1 - n) b'0') lsb i fw b _ (omega arith))
      | inr outside ↦ rw outside (ground arith)
    ]
