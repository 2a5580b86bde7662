-- ===== src/Sleep/Message.antt =====
-- What is written to the file of sleep.c and read back.
use linuxpedia.Prelude.{
  ℕ, zero, suc, ◌≤◌, ◌<◌, ◌≡◌, refl, ◌∙◌, ap, false, List, take, length, ◌++◌, [], ◌∷◌, arith, ◌==◌,
  if◌then◌else◌, min,
}
use linuxpedia.Prelude.Int.{pos}
use linuxpedia.Prelude.CString.{c_str}
use linuxpedia.Sleep.{File, input_loop, module_input, last_input, module_output}

c_str-input_loop :
    (n : ℕ) (buf message : List ℕ)
    → n ≤ length buf
    → n < length message
    → c_str (input_loop n buf message) ≡ c_str (take n buf)
unfolding c_str
c_str-input_loop zero buf [] h l = absurd (omega arith)
c_str-input_loop zero buf (c ∷ message) h l = refl
c_str-input_loop (suc n) [] message h l = absurd (omega arith)
c_str-input_loop (suc n) (b ∷ buf) [] h l = absurd (omega arith)
c_str-input_loop (suc n) (b ∷ buf) (c ∷ message) h l =
    ap (λ s. if b == 0 then [] else b ∷ s)
      (c_str-input_loop n buf message (omega arith) (omega arith))

length-input_loop :
    (n : ℕ) (buf message : List ℕ) → length (input_loop n buf message) ≡ length message
length-input_loop zero buf [] = refl
length-input_loop zero buf (c ∷ message) = refl
length-input_loop (suc n) [] message = refl
length-input_loop (suc n) (b ∷ buf) [] = refl
length-input_loop (suc n) (b ∷ buf) (c ∷ message) = ap suc (length-input_loop n buf message)

pub record Answers (f : File) (buf : List ℕ) (len : ℕ) : Type 0 where
  pub code : (module_input f buf).0 ≡ pos (min 79 (length buf))
  pub inside : length (module_input f buf).1.message ≡ 80
  pub first :
      (module_output (module_input f buf).1 len).0
      ≡ take len (last_input ++ c_str (take (min 79 (length buf)) buf) ++ (10 ∷ []))
  pub second : (module_output (module_output (module_input f buf).1 len).1 len).0 ≡ []
  pub again : (module_output (module_output (module_input f buf).1 len).1 len).1.finished ≡ false

-- A write to a file of 80 message bytes that is not in the middle of a read takes at most 79 bytes
-- and leaves 80 message bytes. A read of `len` bytes after it gives the first `len` bytes of
-- "Last input:", the written string up to its first 0, and a newline; the next read gives nothing,
-- and the file is then ready for another read.
pub module_output-module_input :
    (f : File) (buf : List ℕ) (len : ℕ)
    → length f.message ≡ 80
    → f.finished ≡ false
    → Answers f buf len
unfolding module_input module_output
module_output-module_input f buf len h e = rw e (record {
  code = refl;
  inside = length-input_loop (min 79 (length buf)) buf f.message ∙ h;
  first =
      ap (λ s. take len (last_input ++ s ++ (10 ∷ [])))
        (c_str-input_loop (min 79 (length buf)) buf f.message (omega arith) (omega arith));
  second = refl;
  again = refl;
})
