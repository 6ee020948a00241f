-- ===== src/Flv/Tag/RoundTrip.antt =====
-- Reading back the header that a tag was written with.
use bilirec.Prelude.{ℕ, ◌<◌, ◌≡◌, ◌∙◌, arith}
use bilirec.Prelude.Words.{IsU32}
use bilirec.Prelude.Bytes.{byte_at, uint24, uint32_be, uint24_lem, uint32_be_lem}

pub uint24-byte_at : (v : ℕ) → v < 16777216 → uint24 (byte_at v 2) (byte_at v 1) (byte_at v 0) ≡ v
uint24-byte_at v h =
    uint24_lem (byte_at v 2) (byte_at v 1) (byte_at v 0) (omega arith) (omega arith) ∙ omega arith

pub uint32_be-byte_at :
    (v : ℕ) → IsU32 v → uint32_be (byte_at v 3) (byte_at v 2) (byte_at v 1) (byte_at v 0) ≡ v
uint32_be-byte_at v h =
    uint32_be_lem (byte_at v 3) (byte_at v 2) (byte_at v 1) (byte_at v 0) (omega arith)
      (omega arith) (omega arith)
    ∙ omega arith
