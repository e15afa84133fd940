-- ===== src/Config.antt =====
-- config.rs: the texts that the kernel prints, as bytes. Its `PAGE_SIZE` is with the allocators.
use Prim.Native.Char.{code}
use Prim.Native.String.{String}
use corrosion.Prelude.{ℕ, List, [], ◌∷◌, ◌++◌}

-- A text, by its bytes.
abbrev pub Text : Type 0
Text = List ℕ

-- A text of ASCII characters.
abbrev pub ascii : String → Text
ascii String.[] = []
ascii (String.◌∷◌ c cs) = code c ∷ ascii cs

-- `\x1b[…m`, which switches the terminal's colour.
abbrev colour : String → Text
colour c = 27 ∷ (ascii "[" ++ (ascii c ++ ascii "m"))

abbrev pub version : Text
version = ascii "v0.2.0"

abbrev pub platform : Text
platform = ascii "RISCV-64 QEMU Virt"

abbrev pub banner : Text
banner =
    ascii "\n"
    ++ (ascii "                              _             \n"
        ++ (ascii "                             (_)            \n"
            ++ (ascii "  ___ ___  _ __ _ __ "
                ++ (colour "38;5;202"
                    ++ (ascii "___  ___"
                        ++ (colour "39"
                            ++ (ascii " _  ___  _ __  \n"
                                ++ (ascii " / __/ _ \\| '__| '__"
                                    ++ (colour "38;5;202"
                                        ++ (ascii "/ _ \\/ __|"
                                            ++ (colour "39"
                                                ++ (ascii " |/ _ \\| '_ \\ \n"
                                                    ++ (ascii "| (_| (_) | |  | | "
                                                        ++ (colour "38;5;202"
                                                            ++ (ascii "| (_) \\__ \\"
                                                            ++ (colour "39"
                                                            ++ (ascii " | (_) | | | |\n"
                                                            ++ (ascii " \\___\\___/|_|  |_|  "
                                                            ++ (colour "38;5;202"
                                                            ++ (ascii "\\___/|___/"
                                                            ++ (colour "39"
                                                            ++ (ascii "_|\\___/|_| |_|\n"
                                                            ++ ascii
                                                            "============================================\n"))))))))))))))))))))))

abbrev pub main : Text
main = ascii "[" ++ (colour "38;5;214" ++ (ascii "MAIN" ++ (colour "39" ++ ascii "]")))

abbrev pub step : Text
step = ascii "[" ++ (colour "38;5;130" ++ (ascii "STEP" ++ (colour "39" ++ ascii "]")))

abbrev pub info : Text
info = ascii "[" ++ (colour "38;5;167" ++ (ascii "INFO" ++ (colour "39" ++ ascii "]")))

abbrev pub test : Text
test = ascii "[" ++ (colour "38;5;202" ++ (ascii "TEST" ++ (colour "39" ++ ascii "]")))

abbrev pub debug : Text
debug = ascii "[" ++ (colour "38;5;97" ++ (ascii "DEBUG" ++ (colour "39" ++ ascii "]")))

abbrev pub test_passed : Text
test_passed =
    ascii "  ... [" ++ (colour "38;5;41" ++ (ascii "PASSED" ++ (colour "39" ++ ascii "]")))

abbrev pub trap_colour : Text
trap_colour = colour "38;5;222"

abbrev pub reset_colour : Text
reset_colour = colour "39"
