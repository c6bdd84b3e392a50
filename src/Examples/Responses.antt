-- ===== src/Examples/Responses.antt =====
-- An exception of the framework with the address of a database in it, rendered.
use fast_api_scaff.Prelude.{ℕ, ◌≡◌, ◌≤◌, true, none, codes, arith}
use fast_api_scaff.Redis.Decimal.{is_digit}
use fast_api_scaff.Http.Render.{Exception, http_exception, text, render_exception}
use fast_api_scaff.Http.Render.Hidden.{Hidden, Raised, render_exception-Hidden}

is_digit-digits : (n : ℕ) → 48 ≤ n → n ≤ 57 → is_digit n ≡ true
is_digit-digits n h k = ground (arith, h, k)

abbrev gone : Exception ℕ
gone =
    http_exception
      (record { status_code = 503; content = text (codes "db-1 refused"); headers = none })

render_exception-Hidden_example :
    Hidden (codes "100") (render_exception is_digit (codes "100") none gone)
unfolding Raised
render_exception-Hidden_example =
    render_exception-Hidden is_digit is_digit-digits (codes "100") none gone (omega arith)
