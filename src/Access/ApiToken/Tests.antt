-- ===== src/Access/ApiToken/Tests.antt =====
-- A generated token whose body ends in underscores.
use zenith_panel.Common.{refl, some, Text, codes}
use zenith_panel.Access.Example.{codec}
use zenith_panel.Access.ApiToken.{generate}
use zenith_panel.Access.ApiToken.Format.{Passes, generate-Passes}

generate-Passes_example : Passes codec (generate codec (some (codes "abcdefghijklmnop")))
unfolding zenith_panel.Common.has_byte
generate-Passes_example = generate-Passes codec (codes "abcdefghijklmnop") refl refl refl refl refl
