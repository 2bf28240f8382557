-- ===== src/Driver/Extension.antt =====
-- Paths with another extension.
use stable_mir_json.Prelude.{◌≡◌, refl, [], ◌∷◌, ◌++◌, txt}
use stable_mir_json.Mir.{Text}
use stable_mir_json.FileSystem.{FilePath}
use stable_mir_json.Driver.{
  Callback, emit_smir, emit_dotfile, emit_d2file, file_stem, with_extension, extension_of,
}

++-cancel : (s t u : Text) → s ++ t ≡ s ++ u → t ≡ u
++-cancel [] t u h = h
++-cancel (a ∷ s) t u h = ++-cancel s t u (cc)

-- The extension can be read off.
with_extension-eq :
    (name : Text) (dir : FilePath) (e e' : Text)
    → with_extension (name ∷ dir) e ≡ with_extension (name ∷ dir) e'
    → txt "." ++ e ≡ txt "." ++ e'
with_extension-eq name dir e e' h =
    let same : file_stem name ++ (txt "." ++ e) ≡ file_stem name ++ (txt "." ++ e') = cc in
    ++-cancel (file_stem name) (txt "." ++ e) (txt "." ++ e') same

extension_of-eq :
    (c c' : Callback) → txt "." ++ extension_of c ≡ txt "." ++ extension_of c' → c ≡ c'
unfolding txt
extension_of-eq emit_smir emit_smir h = refl
extension_of-eq emit_smir emit_dotfile h = absurd (cc)
extension_of-eq emit_smir emit_d2file h = absurd (cc)
extension_of-eq emit_dotfile emit_smir h = absurd (cc)
extension_of-eq emit_dotfile emit_dotfile h = refl
extension_of-eq emit_dotfile emit_d2file h = absurd (cc)
extension_of-eq emit_d2file emit_smir h = absurd (cc)
extension_of-eq emit_d2file emit_dotfile h = absurd (cc)
extension_of-eq emit_d2file emit_d2file h = refl

-- Callbacks that write to the same path, next to a file with a name, are the same.
pub with_extension-injective :
    (name : Text) (dir : FilePath) (c c' : Callback)
    → with_extension (name ∷ dir) (extension_of c) ≡ with_extension (name ∷ dir) (extension_of c')
    → c ≡ c'
with_extension-injective name dir c c' h =
    extension_of-eq c c' (with_extension-eq name dir (extension_of c) (extension_of c') h)
