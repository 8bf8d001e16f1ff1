-- ===== src/Apt/Lists/Paragraphs.antt =====
-- The parser of pkg/package_manager/apt_search.go against a reading of each paragraph by itself.
use gameapctl.Base.{
  ℕ, false, Option, none, some, List, [], ◌∷◌, ◌++◌, Text, split, is_empty, map, All, if◌then◌else◌,
  ◌==◌, ◌≡◌, ◌≢◌, refl, sym, ap, subst, ◌∙◌,
}
use gameapctl.Apt.Lists.{
  AptListPackage, no_package, Field, is_package, is_version, is_architecture, is_depends, is_size,
  is_installed_size, is_description, is_section, is_md5sum, is_sha256, entry_of, put_entry,
  put_field, scan_packages, build_packages_list,
}

abbrev pub number : Field → ℕ
number is_package = 0
number is_version = 1
number is_architecture = 2
number is_depends = 3
number is_size = 4
number is_installed_size = 5
number is_description = 6
number is_section = 7
number is_md5sum = 8
number is_sha256 = 9

module _ {A : Type 0} (read : Text → A) where
  abbrev pub updated : Field → A → Option (Field × Text) → A
  updated f old none = old
  updated f old (some (g, value)) = if number f == number g then read value else old

  -- What the last line for a field gives, and `old` without one.
  unfoldable pub last_of : Field → A → List Text → A
  unfolding entry_of
  last_of f old [] = old
  last_of f old (line ∷ lines) = last_of f (updated f old (entry_of line)) lines

abbrev pub plain : Text → Text
plain value = value

-- The package that a paragraph states on top of another: each field by itself.
unfoldable pub stated_from : AptListPackage → List Text → AptListPackage
unfolding last_of split
stated_from p lines = record {
  package_name = last_of plain is_package p.package_name lines;
  version = last_of plain is_version p.version lines;
  architecture = last_of plain is_architecture p.architecture lines;
  depends = last_of (split b',') is_depends p.depends lines;
  size = last_of plain is_size p.size lines;
  installed_size = last_of plain is_installed_size p.installed_size lines;
  description = last_of plain is_description p.description lines;
  section_name = last_of plain is_section p.section_name lines;
  md5sum = last_of plain is_md5sum p.md5sum lines;
  sha256 = last_of plain is_sha256 p.sha256 lines;
}

unfoldable pub stated : List Text → AptListPackage
unfolding stated_from
stated lines = stated_from no_package lines

-- Paragraphs with an empty line after each.
unfoldable pub layout : List (List Text) → List Text
layout [] = []
layout (paragraph ∷ paragraphs) = paragraph ++ [] ∷ layout paragraphs

unfoldable pub IsParagraph : List Text → Type 0
unfolding stated
IsParagraph lines = All (λ line. line ≢ []) lines × (stated lines).package_name ≢ []

updated_all_lem :
    (e : Option (Field × Text)) (p : AptListPackage) (lines : List Text)
    → stated_from (put_entry e p) lines ≡ record {
      package_name = last_of plain is_package (updated plain is_package p.package_name e) lines;
      version = last_of plain is_version (updated plain is_version p.version e) lines;
      architecture =
          last_of plain is_architecture (updated plain is_architecture p.architecture e) lines;
      depends = last_of (split b',') is_depends (updated (split b',') is_depends p.depends e) lines;
      size = last_of plain is_size (updated plain is_size p.size e) lines;
      installed_size =
          last_of plain is_installed_size
            (updated plain is_installed_size p.installed_size e)
            lines;
      description =
          last_of plain is_description (updated plain is_description p.description e) lines;
      section_name = last_of plain is_section (updated plain is_section p.section_name e) lines;
      md5sum = last_of plain is_md5sum (updated plain is_md5sum p.md5sum e) lines;
      sha256 = last_of plain is_sha256 (updated plain is_sha256 p.sha256 e) lines;
    }
unfolding stated_from put_field split
updated_all_lem none p lines = refl
updated_all_lem (some (is_package, v)) p lines = refl
updated_all_lem (some (is_version, v)) p lines = refl
updated_all_lem (some (is_architecture, v)) p lines = refl
updated_all_lem (some (is_depends, v)) p lines = refl
updated_all_lem (some (is_size, v)) p lines = refl
updated_all_lem (some (is_installed_size, v)) p lines = refl
updated_all_lem (some (is_description, v)) p lines = refl
updated_all_lem (some (is_section, v)) p lines = refl
updated_all_lem (some (is_md5sum, v)) p lines = refl
updated_all_lem (some (is_sha256, v)) p lines = refl

stated_from-put_entry :
    (p : AptListPackage) (line : Text) (lines : List Text)
    → stated_from (put_entry (entry_of line) p) lines ≡ stated_from p (line ∷ lines)
unfolding last_of stated_from
stated_from-put_entry p line lines = updated_all_lem (entry_of line) p lines

is_empty-false : (name : Text) → name ≢ [] → is_empty name ≡ false
is_empty-false [] named = absurd (named refl)
is_empty-false (c ∷ s) named = refl

-- A paragraph sets the fields of the package that comes out at its empty line.
scan_packages-paragraph :
    (p : AptListPackage) (lines rest : List Text)
    → All (λ line. line ≢ []) lines
    → (stated_from p lines).package_name ≢ []
    → scan_packages p (lines ++ [] ∷ rest) ≡ stated_from p lines ∷ scan_packages no_package rest
unfolding scan_packages stated_from last_of
scan_packages-paragraph p [] rest full named = rw (is_empty-false p.package_name named) refl
scan_packages-paragraph p ([] ∷ lines) rest (h, full) named = absurd (h refl)
scan_packages-paragraph p ((c ∷ s) ∷ lines) rest (h, full) named =
    let same = stated_from-put_entry p (c ∷ s) lines in
    scan_packages-paragraph (put_entry (entry_of (c ∷ s)) p) lines rest full
      (subst (λ q. q.package_name ≢ []) (sym same) named)
    ∙ ap (λ q. q ∷ scan_packages no_package rest) same

scan_packages-layout :
    (paragraphs : List (List Text))
    → All IsParagraph paragraphs
    → scan_packages no_package (layout paragraphs) ≡ map stated paragraphs
unfolding layout scan_packages stated IsParagraph
scan_packages-layout [] well = refl
scan_packages-layout (lines ∷ paragraphs) ((full, named), well) =
    scan_packages-paragraph no_package lines (layout paragraphs) full named
    ∙ ap (λ packages. stated lines ∷ packages) (scan_packages-layout paragraphs well)

-- The packages that the paragraphs of files state, one after another.
unfoldable pub all_stated : (Text → List (List Text)) → List Text → List AptListPackage
unfolding stated
all_stated contents [] = []
all_stated contents (file ∷ files) = map stated (contents file) ++ all_stated contents files

-- Whether a file opens, and holds its paragraphs with an empty line after each.
unfoldable pub IsLaidOut : (Text → Option (List Text)) → (Text → List (List Text)) → Text → Type 0
unfolding layout
IsLaidOut read contents file =
    (read file ≡ some (layout (contents file))) × All IsParagraph (contents file)

-- When every file opens and holds paragraphs of lines that are not empty, each with a package's name
-- and an empty line after it, the list is exactly what the paragraphs state, in the order of the files
-- and paragraphs: each field of a package is that of the last line with its key in the package's own
-- paragraph, or empty without one.
pub build_packages_list-all_stated :
    (read : Text → Option (List Text)) (contents : Text → List (List Text)) (files : List Text)
    → All (IsLaidOut read contents) files
    → build_packages_list read files ≡ some (all_stated contents files)
unfolding build_packages_list all_stated IsLaidOut
build_packages_list-all_stated read contents [] laid = refl
build_packages_list-all_stated read contents (file ∷ files) ((opens, well), laid) =
    rw
      (
        opens,
        build_packages_list-all_stated read contents files laid,
        scan_packages-layout (contents file) well,
      )
      refl
