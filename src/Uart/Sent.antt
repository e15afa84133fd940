-- ===== src/Uart/Sent.antt =====
-- What reaches the serial port: the bytes of the texts, in order.
use mathlib.Core.List.{append_assoc, append-nil}
use corrosion.Prelude.{◌+◌, ◌≡◌, refl, ap, sym, ◌∙◌, [], ◌∷◌, ◌++◌}
use corrosion.Config.{Text, ascii, banner, main, platform, step, version}
use corrosion.Uart.{
  Trace, uart, base, lcr, fcr, ier, put, write_str, print, println, init, serial_main, serial_step,
  print_banner,
}

-- The writes of a text to the data register.
abbrev pub sent : Text → Trace
sent [] = []
sent (c ∷ cs) = (uart.base_address + base, c) ∷ sent cs

pub sent-append : (s t : Text) → sent (s ++ t) ≡ sent s ++ sent t
sent-append [] t = refl
sent-append (c ∷ s) t = ap (λ w. (uart.base_address + base, c) ∷ w) (sent-append s t)

pub write_str-sent : (txt : Text) (w : Trace) → write_str uart txt w ≡ w ++ sent txt
unfolding write_str put
write_str-sent [] w = sym (append-nil w)
write_str-sent (c ∷ cs) w =
    write_str-sent cs (w ++ (uart.base_address + base, c) ∷ [])
    ∙ append_assoc w ((uart.base_address + base, c) ∷ []) (sent cs)

abbrev pub crlf : Text
crlf = ascii "\r\n"

pub println-sent : (txt : Text) (w : Trace) → println txt w ≡ w ++ sent (txt ++ crlf)
unfolding println print
println-sent txt w = write_str-sent (txt ++ crlf) w

four_lines :
    (a b c d : Text) (w : Trace)
    → println d (println c (println b (println a w)))
      ≡ w ++ sent ((a ++ crlf) ++ ((b ++ crlf) ++ ((c ++ crlf) ++ (d ++ crlf))))
four_lines a b c d w =
    println-sent d (println c (println b (println a w)))
    ∙ rw
        (
          println-sent c (println b (println a w)),
          println-sent b (println a w),
          println-sent a w,
          sent-append (a ++ crlf) ((b ++ crlf) ++ ((c ++ crlf) ++ (d ++ crlf))),
          sent-append (b ++ crlf) ((c ++ crlf) ++ (d ++ crlf)),
          sent-append (c ++ crlf) (d ++ crlf),
          append_assoc (w ++ sent (a ++ crlf)) (sent (b ++ crlf)) (sent (c ++ crlf)),
          append_assoc w (sent (a ++ crlf)) (sent (b ++ crlf) ++ sent (c ++ crlf)),
          append_assoc w (sent (a ++ crlf) ++ (sent (b ++ crlf) ++ sent (c ++ crlf)))
              (sent (d ++ crlf)),
          append_assoc (sent (a ++ crlf)) (sent (b ++ crlf) ++ sent (c ++ crlf)) (sent (d ++ crlf)),
          append_assoc (sent (b ++ crlf)) (sent (c ++ crlf)) (sent (d ++ crlf)),
        )
        refl

-- The lines that `init` prints.
abbrev pub announcement : Text
announcement =
    (banner ++ crlf)
    ++ (((main ++ (ascii " " ++ version)) ++ crlf)
        ++ (((main ++ (ascii " " ++ platform)) ++ crlf)
            ++ ((ascii "\n" ++ (step ++ (ascii " " ++ ascii "Booting..."))) ++ crlf)))

-- `init` sets the word length, switches the FIFO on and enables the receive interrupt before the first
-- byte is sent; then exactly the banner, the version, the platform and the first step are sent, byte
-- for byte and in this order.
pub init-announcement :
    (w : Trace)
    → init uart w
      ≡ (w
          ++ (uart.base_address + lcr, 3)
            ∷ (uart.base_address + fcr, 1)
            ∷ (uart.base_address + ier, 1)
            ∷ [])
        ++ sent announcement
unfolding init serial_step serial_main print_banner
init-announcement w =
    four_lines banner (main ++ (ascii " " ++ version)) (main ++ (ascii " " ++ platform))
      (ascii "\n" ++ (step ++ (ascii " " ++ ascii "Booting...")))
      (w
        ++ (uart.base_address + lcr, 3)
          ∷ (uart.base_address + fcr, 1)
          ∷ (uart.base_address + ier, 1)
          ∷ [])
