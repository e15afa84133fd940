-- ===== src/Virtio/Report.antt =====
-- The lines that the scan for devices sends to the serial port.
use mathlib.Core.List.{append_assoc, append-nil}
use corrosion.Prelude.{
  ℕ, zero, suc, ◌+◌, ◌/◌, ◌%◌, ◌≡◌, ap, sym, ◌∙◌, true, false, not, ◌==◌, ltb, if◌then◌else◌, [],
  ◌++◌, Bool-cases, inl, inr, bit_and,
}
use corrosion.Config.{Text, ascii, info}
use corrosion.Uart.{Trace, print, println, serial_info, decimal}
use corrosion.Uart.Sent.{sent, sent-append, write_str-sent, println-sent, crlf}
use corrosion.Block.Setup
use corrosion.Block.Setup.{Answers}
use corrosion.Block.Setup.Fresh.{features_bit}
use corrosion.Virtio.{
  Probe, hex_word, virtio_start, virtio_stride, virtio_magic_le, report_device, report_loop, report,
}

-- A line of information.
abbrev pub informed : Text → Text
informed txt = (ascii "  " ++ (info ++ (ascii " " ++ txt))) ++ crlf

-- What is said of a block device.
abbrev pub block_text : Answers → Text
block_text a =
    informed (ascii "init block device")
    ++ (if not (a.status 13 / 8 % 2 == 1)
        then ascii "features fail..." ++ ascii "failed to init block device...\r\n"
        else if ltb a.queue_number_max 128
        then ascii "queue size fail..." ++ ascii "failed to init block device...\r\n"
        else [])

-- What is said of the device in a slot.
abbrev pub found_text : Probe → Text
found_text p =
    if not (0x74726976 == p.magic)
    then ascii "...not virtio.\r\n"
    else if p.device_id == 0
    then ascii "...not connected.\r\n"
    else if p.device_id == 2
    then block_text p.answers
    else if p.device_id == 16
    then ascii "GPU device...\r\n"
    else if p.device_id == 18
    then ascii "input device...\r\n"
    else ascii "...ignored device type " ++ (decimal p.device_id ++ ascii ".\r\n")

-- The text for `left` slots from `addr` on.
abbrev pub slots_text : (ℕ → Probe) → (left addr : ℕ) → Text
slots_text probe zero addr = []
slots_text probe (suc left) addr =
    ((ascii "    - Virtio device @ 0x" ++ (hex_word addr ++ ascii "..."))
      ++ found_text (probe addr))
    ++ slots_text probe left (addr + virtio_stride)

pub sent_after : (w : Trace) (s t : Text) → (w ++ sent s) ++ sent t ≡ w ++ sent (s ++ t)
sent_after w s t = append_assoc w (sent s) (sent t) ∙ ap (λ v. w ++ v) (sym (sent-append s t))

pub print-sent : (txt : Text) (w : Trace) → print txt w ≡ w ++ sent txt
unfolding print
print-sent txt w = write_str-sent txt w

pub serial_info-sent : (txt : Text) (w : Trace) → serial_info txt w ≡ w ++ sent (informed txt)
unfolding serial_info
serial_info-sent txt w = println-sent (ascii "  " ++ (info ++ (ascii " " ++ txt))) w

-- The report of a block device, and what the caller adds when it fails.
block-sent :
    (a : Answers) (w : Trace)
    → (let (tried, ok') = Setup.report a w in
        (if ok' then tried else println (ascii "failed to init block device...") tried)
        ≡ w ++ sent (block_text a))
unfolding Setup.report
block-sent a w =
    let begun = serial_info (ascii "init block device") w in
    let line = informed (ascii "init block device") in
    let told : (t : Text)
        → println (ascii "failed to init block device...") (print t begun)
          ≡ w ++ sent (line ++ (t ++ (ascii "failed to init block device..." ++ crlf))) =
      λ t.
        println-sent (ascii "failed to init block device...") (print t begun)
        ∙ ap (λ v. v ++ sent (ascii "failed to init block device..." ++ crlf))
            (print-sent t begun
              ∙ ap (λ v. v ++ sent t) (serial_info-sent (ascii "init block device") w))
        ∙ ap (λ v. v ++ sent (ascii "failed to init block device..." ++ crlf)) (sent_after w line t)
        ∙ sent_after w (line ++ t) (ascii "failed to init block device..." ++ crlf)
        ∙ ap (λ v. w ++ sent v)
            (append_assoc line t (ascii "failed to init block device..." ++ crlf)) in
    elim (Bool-cases (a.status 13 / 8 % 2 == 1)) [
      | inr denied ↦
          let test : (bit_and (a.status 13) 8 == 0) ≡ true =
            features_bit (a.status 13) ∙ ap not denied in
          rw (test, denied) (told (ascii "features fail..."))
      | inl agreed ↦
          let test : (bit_and (a.status 13) 8 == 0) ≡ false =
            features_bit (a.status 13) ∙ ap not agreed in
          elim (Bool-cases (ltb a.queue_number_max 128)) [
            | inl short ↦ rw (test, agreed, short) (told (ascii "queue size fail..."))
            | inr long ↦
                rw (test, agreed, long)
                  (serial_info-sent (ascii "init block device") w
                    ∙ ap (λ v. w ++ sent v) (sym (append-nil line)))
          ]
    ]

-- The text that a slot's line begins with.
abbrev slot_text : ℕ → Text
slot_text addr = ascii "    - Virtio device @ 0x" ++ (hex_word addr ++ ascii "...")

report_device-sent :
    (probe : ℕ → Probe) (addr : ℕ) (w : Trace)
    → report_device probe addr w ≡ w ++ sent (slot_text addr ++ found_text (probe addr))
unfolding report_device
report_device-sent probe addr w =
    let p = probe addr in
    let begun = print (slot_text addr) w in
    let follows : (t : Text) → begun ++ sent t ≡ w ++ sent (slot_text addr ++ t) = λ t.
      ap (λ v. v ++ sent t) (print-sent (slot_text addr) w) ∙ sent_after w (slot_text addr) t in
    let says : (t : Text) → println t begun ≡ w ++ sent (slot_text addr ++ (t ++ crlf)) =
      λ t. println-sent t begun ∙ follows (t ++ crlf) in
    elim (Bool-cases (virtio_magic_le == p.magic)) [
      | inr other ↦ rw other (says (ascii "...not virtio."))
      | inl virtio ↦ elim (Bool-cases (p.device_id == 0)) [
        | inl none_there ↦ rw (virtio, none_there) (says (ascii "...not connected."))
        | inr connected ↦ elim (Bool-cases (p.device_id == 2)) [
          | inl blk ↦
              rw (virtio, connected, blk)
                (block-sent p.answers begun ∙ follows (block_text p.answers))
          | inr not_block ↦ elim (Bool-cases (p.device_id == 16)) [
            | inl gpu ↦ rw (virtio, connected, not_block, gpu) (says (ascii "GPU device..."))
            | inr not_gpu ↦ elim (Bool-cases (p.device_id == 18)) [
              | inl input ↦
                  rw (virtio, connected, not_block, not_gpu, input) (says (ascii "input device..."))
              | inr ignored ↦
                  let said = ascii "...ignored device type " in
                  let digits = decimal p.device_id in
                  rw (virtio, connected, not_block, not_gpu, ignored)
                    (says (said ++ (digits ++ ascii "."))
                      ∙ ap (λ v. w ++ sent (slot_text addr ++ v))
                          (append_assoc said (digits ++ ascii ".") crlf
                            ∙ ap (λ v. said ++ v) (append_assoc digits (ascii ".") crlf)))
            ]
          ]
        ]
      ]
    ]

report_loop-sent :
    (probe : ℕ → Probe) (left addr : ℕ) (w : Trace)
    → report_loop probe left addr w ≡ w ++ sent (slots_text probe left addr)
unfolding report_loop
report_loop-sent probe zero addr w = sym (append-nil w)
report_loop-sent probe (suc left) addr w =
    let first = slot_text addr ++ found_text (probe addr) in
    report_loop-sent probe left (addr + virtio_stride) (report_device probe addr w)
    ∙ ap (λ v. v ++ sent (slots_text probe left (addr + virtio_stride)))
        (report_device-sent probe addr w)
    ∙ sent_after w first (slots_text probe left (addr + virtio_stride))

-- The scan sends its own line, and then for each of the eight slots where it is and what is there.
pub report-sent :
    (probe : ℕ → Probe) (w : Trace)
    → report probe w ≡ w ++ sent (informed (ascii "init virtio") ++ slots_text probe 8 virtio_start)
unfolding report
report-sent probe w =
    report_loop-sent probe 8 virtio_start (serial_info (ascii "init virtio") w)
    ∙ ap (λ v. v ++ sent (slots_text probe 8 virtio_start))
        (serial_info-sent (ascii "init virtio") w)
    ∙ sent_after w (informed (ascii "init virtio")) (slots_text probe 8 virtio_start)
