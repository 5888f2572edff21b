-- ===== src/Disk/Sectors.antt =====
-- Whole sectors: `ide_pio_read` and `ide_pio_write`.
use c4_os.Prelude.Ports.{Ports}
