-- ===== src/Config/Port.antt =====
-- The ports that the settings give.
use shawncoin.Prelude.{
  ℕ, ◌<◌, ◌≡◌, subst, ◌&&◌, some, ltb, if◌then◌else◌, if-case, and_left, and_right, ltb→lt,
  some_of_image,
}
use shawncoin.Wire.{Bytes}
use shawncoin.Config.{Config, get_int, get_port}

-- Where the default is a port, so is what is returned, whatever the setting.
pub get_port_bounds :
    (key : Bytes) (default p : ℕ) (config : Config)
    → 0 < default
    → default < 65536
    → get_port key default config ≡ some p
    → (0 < p) × (p < 65536)
unfolding get_port
get_port_bounds key default p config lo hi h =
    let (n, e, v) =
      some_of_image (λ n. if ltb 0 n && ltb n 65536 then n else default)
        (get_int key default config) p h in
    subst (λ q. (0 < q) × (q < 65536)) v
      (if-case (λ q. (0 < q) × (q < 65536)) (ltb 0 n && ltb n 65536)
        (λ t. (
          ltb→lt 0 n (and_left (ltb 0 n) (ltb n 65536) t),
          ltb→lt n 65536 (and_right (ltb 0 n) (ltb n 65536) t),
        ))
        (λ _. (lo, hi)))
