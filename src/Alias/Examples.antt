-- ===== src/Alias/Examples.antt =====
-- Tests of `check_alias`.
use herdr_remote_channel.Prelude.{◌≡◌, refl}
use herdr_remote_channel.Errors.{ok, err}
use herdr_remote_channel.Alias.{empty, control, check_alias}

stores_name : check_alias "  Alice  " ≡ ok "Alice"
unfolding check_alias
stores_name = refl

refuses_blank : check_alias "   " ≡ err empty
unfolding check_alias
refuses_blank = refl

refuses_newline : check_alias "Al\nice" ≡ err control
unfolding check_alias
refuses_newline = refl
