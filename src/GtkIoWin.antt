-- ===== src/GtkIoWin.antt =====
-- The window `PipeView` of src/gtkiowin.cc around the streams of a program: what it shows of the texts
-- that it reads, and what it sends.
use modglue.Common.{
  ℕ, ◌-◌, ◌≡◌, refl, sym, Bool, true, List, [], ◌∷◌, ◌++◌, Bytes, codes, ◌==◌, if◌then◌else◌,
  length, get_or, pop_back, append_assoc, length-append, get_or-append, pop_back-concat, arith, inl,
  inr, Bool-cases,
}

-- A text in the widget `monitor_`, by its colour.
pub data Part : Type 0 where
  in_black : Bytes → Part
  in_red : Bytes → Part

-- The two buttons, the text that the user typed, and what is shown. Only the code writes into the
-- widget, and it inserts at the end.
pub record PipeView : Type 0 where
  pub send_double_lf : Bool
  pub strip_input_lf : Bool
  pub out : Bytes
  pub monitor : List Part

unfoldable pub cb_erase : PipeView → PipeView
cb_erase v = record v { monitor = [] }

-- `print` up to the end of its first test. Of an empty text the code reads a byte out of its bounds.
unfoldable pub strip_newline : Bool → Bytes → Bytes
strip_newline strips txt =
    if strips then (if get_or txt (length txt - 1) 0 == b'\n' then pop_back txt else txt) else txt

-- The second test of `print`, on the text and what is left of it. Where nothing is left the code
-- reads a byte out of the bounds of the text.
unfoldable pub show_end_of_file : Bytes → Bytes → Bytes
show_end_of_file txt tmp =
    if get_or txt (length tmp - 1) 0 == 4 then pop_back tmp ++ codes "\n--EOF--\n" else tmp

unfoldable pub print : Bytes → PipeView → PipeView
unfolding strip_newline show_end_of_file
print txt v = record v {
  monitor = v.monitor ++ in_black (show_end_of_file txt (strip_newline v.strip_input_lf txt)) ∷ [];
}

unfoldable pub excprint : Bytes → PipeView → PipeView
excprint txt v = record v { monitor = v.monitor ++ in_red txt ∷ [] }

-- The text that `cb_send` gives to the pipe; what the pipe throws is caught.
unfoldable pub cb_send : PipeView → Bytes
cb_send v = if v.send_double_lf then v.out ++ b'\n' ∷ b'\n' ∷ [] else v.out ++ b'\n' ∷ []

length-concat : (s : Bytes) (c : ℕ) → length (s ++ c ∷ []) - 1 ≡ length s
length-concat s c = omega (arith, length-append s (c ∷ []))

-- A newline at the end is stripped, where the button is pressed.
strip_newline-concat : (tmp : Bytes) → strip_newline true (tmp ++ b'\n' ∷ []) ≡ tmp
unfolding strip_newline
strip_newline-concat tmp =
    rw (length-concat tmp b'\n', get_or-append tmp [] b'\n' 0, pop_back-concat tmp b'\n') refl

-- What is shown of a text that ends in a byte and newlines, where one newline is stripped.
show-concat :
    (s ys : Bytes) (c : ℕ)
    → show_end_of_file ((s ++ c ∷ []) ++ ys) (s ++ c ∷ [])
      ≡ (if c == 4 then s ++ codes "\n--EOF--\n" else s ++ c ∷ [])
unfolding show_end_of_file
show-concat s ys c =
    rw (length-concat s c, append_assoc s (c ∷ []) ys, get_or-append s ys c 0, pop_back-concat s c)
      refl

-- What is shown of a text and a newline, where the button is pressed.
print-concat :
    (s : Bytes) (c : ℕ) (v : PipeView)
    → v.strip_input_lf ≡ true
    → print ((s ++ c ∷ []) ++ b'\n' ∷ []) v ≡ record v {
      monitor =
          v.monitor ++ in_black (if c == 4 then s ++ codes "\n--EOF--\n" else s ++ c ∷ []) ∷ [];
    }
unfolding print
print-concat s c v strips =
    rw (strips, strip_newline-concat (s ++ c ∷ []), show-concat s (b'\n' ∷ []) c) refl

-- What a window that strips a newline shows of what another window sends, where the user typed at
-- least one byte: the text, with another newline where the button for two is pressed; a byte 4 at
-- the end is shown as the mark, unless two newlines are sent.
print-cb_send :
    (s : Bytes) (c : ℕ) (v w : PipeView)
    → v.out ≡ s ++ c ∷ []
    → w.strip_input_lf ≡ true
    → print (cb_send v) w ≡ record w {
      monitor =
          w.monitor
          ++ in_black (
              if v.send_double_lf
              then (s ++ c ∷ []) ++ b'\n' ∷ []
              else if c == 4
              then s ++ codes "\n--EOF--\n"
              else s ++ c ∷ [])
            ∷ [];
    }
unfolding cb_send
print-cb_send s c v w typed strips = elim (Bool-cases v.send_double_lf) [
  | inl two ↦
      rw (two, typed, sym (append_assoc (s ++ c ∷ []) (b'\n' ∷ []) (b'\n' ∷ [])))
        (print-concat (s ++ c ∷ []) b'\n' w strips)
  | inr one ↦ rw (one, typed) (print-concat s c w strips)
]
