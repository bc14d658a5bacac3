-- ===== src/Base/Text/Append.antt =====
-- The code points of texts that are put together.
use mathlib.Core.Path.{◌≡◌, refl}
use mathlib.Core.List.{◌++◌}
use text.Mathlib.TextLemmas.{nil-append, cons-append}
use dbchan.Base.Text.{String, ◌<>◌, codes}

pub codes-append : (s t : String) → codes (s <> t) ≡ codes s ++ codes t
codes-append String.[] t = rw (nil-append t) refl
codes-append (String.◌∷◌ c s) t = rw (cons-append c s t, codes-append s t) refl
