-- ===== src/Uart/Tests.antt =====
-- A number that is printed.
use corrosion.Prelude.{◌≡◌, refl}
use corrosion.Config.{ascii}
use corrosion.Uart.{decimal}

hundred : decimal 1024 ≡ ascii "1024"
unfolding decimal
hundred = refl
