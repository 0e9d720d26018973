-- ===== src/Platform/Config/Numbers.antt =====
-- What `strconv.Atoi` makes of a number that was printed.
use streaming_bot.Prelude.{ℕ, ◌^◌, ◌<◌, Text, ◌≡◌, arith}
use streaming_bot.Prelude.Int.{ℤ, pos}
use streaming_bot.Prelude.Decimal.{decimal, decimal-nonempty}
use streaming_bot.Platform.Config.{getenv_int}
use streaming_bot.Platform.Atoi.{atoi-decimal}

-- A setting that holds the decimal text of a number of 63 bits is read as that number, whatever the
-- default.
getenv_int-decimal :
    (getenv : Text → Text) (key : Text) (fallback : ℤ) (n : ℕ)
    → n < 2 ^ 63
    → getenv key ≡ decimal n
    → getenv_int getenv key fallback ≡ pos n
unfolding getenv_int
getenv_int-decimal getenv key fallback n h e = ground (arith, atoi-decimal n h, decimal-nonempty n)
