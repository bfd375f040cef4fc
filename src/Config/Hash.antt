-- ===== src/Config/Hash.antt =====
-- internal/config/config.go, `DeclHash`: what an approval is tied to. `digest` stands for the
-- SHA-256 of the JSON of a declaration and the preparation; `none` is its error.
use masuda.Common.{Option, Text, []}
use masuda.Config.Decl.{PrivilegedCommandDecl}

-- The copy whose description is emptied.
unfoldable pub without_description : PrivilegedCommandDecl → PrivilegedCommandDecl
without_description d = record d { description = [] }

unfoldable pub decl_hash :
    (PrivilegedCommandDecl → Text → Option Text) → PrivilegedCommandDecl → Text → Option Text
unfolding without_description
decl_hash digest d prepare = digest (without_description d) prepare
