-- ===== src/Buffer/Print/Shown.antt =====
-- The texts that the prints of buffer.rs send, and decoders for them.
use mathlib.Core.List.{append_assoc, append-nil}
use corrosion.Prelude.{
  ℕ, zero, suc, ◌+◌, ◌-◌, ◌*◌, ◌/◌, ◌%◌, ◌<◌, ◌≡◌, refl, ap, sym, ◌∙◌, arith, List, [], ◌∷◌, ◌++◌,
  ltb, leb, false, true, ◌==◌, if◌then◌else◌, Bool-cases, inl, inr,
}
use corrosion.Machine.{Memory}
use corrosion.Machine.Words.{IsBytes}
use corrosion.Config.{Text, ascii}
use corrosion.Uart
use corrosion.Uart.{Trace, println, decimal}
use corrosion.Uart.Sent.{sent, sent-append, write_str-sent, println-sent, crlf}
use corrosion.Buffer.{Buffer}
use corrosion.Buffer.Print.{
  char, digit, hex, binary, each, print_as, print, print_hex, print_binary,
}

abbrev pub bytes_at : (p n : ℕ) → Memory → List ℕ
bytes_at p zero m = []
bytes_at p (suc n) m = m p ∷ bytes_at (p + 1) n m

abbrev pub shown : (ℕ → Text) → (p n : ℕ) → Memory → Text
shown format p zero m = []
shown format p (suc n) m = format (m p) ++ shown format (p + 1) n m

each-sent :
    (format : ℕ → Text) (p n : ℕ) (m : Memory) (w : Trace)
    → each format p n m w ≡ w ++ sent (shown format p n m)
unfolding each Uart.print
each-sent format p zero m w = sym (append-nil w)
each-sent format p (suc n) m w =
    each-sent format (p + 1) n m (Uart.print (format (m p)) w)
    ∙ rw
        (
          write_str-sent (format (m p)) w,
          sent-append (format (m p)) (shown format (p + 1) n m),
          append_assoc w (sent (format (m p))) (sent (shown format (p + 1) n m)),
        )
        refl

-- Decoders, independent of the code: numbers of a base that end with a space, and UTF-8 of at most two
-- bytes.
abbrev pub value : ℕ → ℕ
value c = if ltb c 58 then c - 48 else c - 87

abbrev pub numbers : (radix acc : ℕ) → Text → List ℕ
numbers radix acc [] = []
numbers radix acc (c ∷ cs) =
    let rest = numbers radix (if c == 32 then 0 else radix * acc + value c) cs in
    if c == 32 then acc ∷ rest else rest

abbrev pub chars : ℕ → Text → List ℕ
chars acc [] = []
chars acc (c ∷ cs) =
    let rest = chars (if leb 192 c then c - 192 else 0) cs in
    if leb 192 c then rest else (if ltb c 128 then c else 64 * acc + (c - 128)) ∷ rest

numbers-digit :
    (radix acc d : ℕ) (cs : Text)
    → d < 16
    → numbers radix acc (digit d ∷ cs) ≡ numbers radix (radix * acc + d) cs
numbers-digit radix acc d cs lt =
    let no_space : (digit d == 32) ≡ false = ground arith in
    let same : value (digit d) ≡ d = ground arith in rw (no_space, same) refl

abbrev AllDigits : List ℕ → Type 0
AllDigits [] = Unit {0}
AllDigits (d ∷ ds) = (d < 16) × AllDigits ds

abbrev spelled : List ℕ → Text → Text
spelled [] cs = 32 ∷ cs
spelled (d ∷ ds) cs = digit d ∷ spelled ds cs

abbrev number_of : (radix acc : ℕ) → List ℕ → ℕ
number_of radix acc [] = acc
number_of radix acc (d ∷ ds) = number_of radix (radix * acc + d) ds

numbers-spelled :
    (radix acc : ℕ) (ds : List ℕ) (cs : Text)
    → AllDigits ds
    → numbers radix acc (spelled ds cs) ≡ number_of radix acc ds ∷ numbers radix 0 cs
numbers-spelled radix acc [] cs all = refl
numbers-spelled radix acc (d ∷ ds) cs (lt, all) =
    numbers-digit radix acc d (spelled ds cs) lt ∙ numbers-spelled radix (radix * acc + d) ds cs all

hex-read : (b : ℕ) (cs : Text) → b < 256 → numbers 16 0 (hex b ++ cs) ≡ b ∷ numbers 16 0 cs
hex-read b cs lt =
    let whole : 16 * (16 * 0 + b / 16) + b % 16 ≡ b = omega arith in
    numbers-spelled 16 0 (b / 16 ∷ b % 16 ∷ []) cs (omega arith, (omega arith, tt))
    ∙ ap (λ n. n ∷ numbers 16 0 cs) whole

binary-read : (b : ℕ) (cs : Text) → b < 256 → numbers 2 0 (binary b ++ cs) ≡ b ∷ numbers 2 0 cs
binary-read b cs lt =
    let whole : 2
            * (2
                  * (2
                        * (2
                              * (2 * (2 * (2 * (2 * 0 + b / 128) + b / 64 % 2) + b / 32 % 2)
                                  + b / 16 % 2)
                            + b / 8 % 2)
                      + b / 4 % 2)
                + b / 2 % 2)
          + b % 2
        ≡ b =
      omega arith in
    numbers-spelled 2 0
      (b / 128
        ∷ b / 64 % 2
        ∷ b / 32 % 2
        ∷ b / 16 % 2
        ∷ b / 8 % 2
        ∷ b / 4 % 2
        ∷ b / 2 % 2
        ∷ b % 2
        ∷ [])
      cs
      (
        omega arith,
        (
          omega arith,
          (
            omega arith,
            (omega arith, (omega arith, (omega arith, (omega arith, (omega arith, tt))))),
          ),
        ),
      )
    ∙ ap (λ n. n ∷ numbers 2 0 cs) whole

char-read : (b : ℕ) (cs : Text) → b < 256 → chars 0 (char b ++ cs) ≡ b ∷ chars 0 cs
char-read b cs lt = elim (Bool-cases (ltb b 128)) [
  | inl ascii_byte ↦
      let single : leb 192 b ≡ false = ground arith in rw (ascii_byte, single, ascii_byte) refl
  | inr two ↦
      let lead : leb 192 (192 + b / 64) ≡ true = ground arith in
      let follows : leb 192 (128 + b % 64) ≡ false = ground arith in
      let no_ascii : ltb (128 + b % 64) 128 ≡ false = ground arith in
      rw (two, lead, follows, no_ascii) (ap (λ n. n ∷ chars 0 cs) (omega arith))
]

-- What a decoder makes of each byte's text, it makes of the whole.
shown-read :
    (format : ℕ → Text) (decode : Text → List ℕ) (p n : ℕ) (m : Memory)
    → IsBytes m
    → decode [] ≡ []
    → ((b : ℕ) (cs : Text) → b < 256 → decode (format b ++ cs) ≡ b ∷ decode cs)
    → decode (shown format p n m) ≡ bytes_at p n m
shown-read format decode p zero m bytes none one = none
shown-read format decode p (suc n) m bytes none one =
    one (m p) (shown format (p + 1) n m) (bytes p)
    ∙ ap (λ bs. m p ∷ bs) (shown-read format decode (p + 1) n m bytes none one)

-- The lines that a buffer's print sends, with its bytes in `format`.
abbrev pub report : (ℕ → Text) → Buffer → Memory → Text
report format self m =
    ((ascii "len: " ++ decimal self.len) ++ crlf) ++ (shown format self.buffer self.len m ++ crlf)

print_as-sent :
    (format : ℕ → Text) (self : Buffer) (m : Memory) (w : Trace)
    → print_as format self m w ≡ w ++ sent (report format self m)
unfolding print_as
print_as-sent format self m w =
    let line = (ascii "len: " ++ decimal self.len) ++ crlf in
    let body = shown format self.buffer self.len m in
    println-sent []
      (each format self.buffer self.len m (println (ascii "len: " ++ decimal self.len) w))
    ∙ rw
        (
          each-sent format self.buffer self.len m (println (ascii "len: " ++ decimal self.len) w),
          println-sent (ascii "len: " ++ decimal self.len) w,
          sent-append line (body ++ crlf),
          sent-append body crlf,
          append_assoc (w ++ sent line) (sent body) (sent crlf),
          append_assoc w (sent line) (sent body ++ sent crlf),
        )
        refl

-- Each of the three prints of a buffer sends a line with its length and a line with its bytes, and
-- from the second the bytes in memory can be read back, all of them and in order: as characters in
-- UTF-8, as hexadecimal and as binary numbers.
pub print-read_back :
    (self : Buffer) (m : Memory) (w : Trace)
    → IsBytes m
    → let bytes = bytes_at self.buffer self.len m in
      ((print self m w ≡ w ++ sent (report char self m))
        × (chars 0 (shown char self.buffer self.len m) ≡ bytes))
      × ((print_hex self m w ≡ w ++ sent (report hex self m))
          × (numbers 16 0 (shown hex self.buffer self.len m) ≡ bytes))
      × ((print_binary self m w ≡ w ++ sent (report binary self m))
          × (numbers 2 0 (shown binary self.buffer self.len m) ≡ bytes))
unfolding print print_hex print_binary
print-read_back self m w bytes = (
  (
    print_as-sent char self m w,
    shown-read char (chars 0) self.buffer self.len m bytes refl char-read,
  ),
  (
    print_as-sent hex self m w,
    shown-read hex (numbers 16 0) self.buffer self.len m bytes refl hex-read,
  ),
  (
    print_as-sent binary self m w,
    shown-read binary (numbers 2 0) self.buffer self.len m bytes refl binary-read,
  ),
)
