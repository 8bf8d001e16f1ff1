-- ===== src/Apt/Lists.antt =====
-- pkg/package_manager/apt_search.go: the packages that the files under /var/lib/apt/lists name, and the
-- search among them. What a file holds is the parameter `read`: the lines that the scanner gives, of
-- the decompressed file where it is compressed, and `none` when it does not open.
pub mod Paragraphs
use gameapctl.Base.{
  ℕ, Bool, true, false, Option, none, some, List, [], ◌∷◌, ◌++◌, Text, codes, text_eq, trim_space,
  split, contains, has_prefix, reverse, is_empty, ◌==◌, ◌&&◌, ◌||◌, if◌then◌else◌,
}

pub record AptListPackage : Type 0 where
  pub package_name : Text
  pub version : Text
  pub architecture : Text
  pub depends : List Text
  pub size : Text
  pub installed_size : Text
  pub description : Text
  pub section_name : Text
  pub md5sum : Text
  pub sha256 : Text

abbrev pub no_package : AptListPackage
no_package = record {
  package_name = [];
  version = [];
  architecture = [];
  depends = [];
  size = [];
  installed_size = [];
  description = [];
  section_name = [];
  md5sum = [];
  sha256 = [];
}

-- The keys that the parser knows.
pub data Field : Type 0 where
  is_package is_version is_architecture is_depends is_size : Field
  is_installed_size is_description is_section is_md5sum is_sha256 : Field

unfoldable pub field_of : Text → Option Field
unfolding text_eq
field_of key =
    if text_eq key (codes "Package")
    then some is_package
    else if text_eq key (codes "Version")
    then some is_version
    else if text_eq key (codes "Architecture")
    then some is_architecture
    else if text_eq key (codes "Depends")
    then some is_depends
    else if text_eq key (codes "Size")
    then some is_size
    else if text_eq key (codes "Installed-Size")
    then some is_installed_size
    else if text_eq key (codes "Description")
    then some is_description
    else if text_eq key (codes "Section")
    then some is_section
    else if text_eq key (codes "MD5sum")
    then some is_md5sum
    else if text_eq key (codes "SHA256")
    then some is_sha256
    else none

unfoldable pub put_field : Field → Text → AptListPackage → AptListPackage
unfolding split
put_field is_package value p = record p { package_name = value }
put_field is_version value p = record p { version = value }
put_field is_architecture value p = record p { architecture = value }
put_field is_depends value p = record p { depends = split b',' value }
put_field is_size value p = record p { size = value }
put_field is_installed_size value p = record p { installed_size = value }
put_field is_description value p = record p { description = value }
put_field is_section value p = record p { section_name = value }
put_field is_md5sum value p = record p { md5sum = value }
put_field is_sha256 value p = record p { sha256 = value }

abbrev cons_before : ℕ → Option (Text × Text) → Option (Text × Text)
cons_before c none = none
cons_before c (some (before, after)) = some (c ∷ before, after)

-- strings.SplitN at the first separator, or `none` without one.
unfoldable pub cut : ℕ → Text → Option (Text × Text)
cut sep [] = none
cut sep (c ∷ s) = let rest = cut sep s in if c == sep then some ([], s) else cons_before c rest

abbrev with_field : Option Field → Text → Option (Field × Text)
with_field none value = none
with_field (some f) value = some (f, value)

abbrev field_entry : Option (Text × Text) → Option (Field × Text)
unfolding field_of trim_space
field_entry none = none
field_entry (some (key, value)) = with_field (field_of (trim_space key)) (trim_space value)

-- The field that a line sets, and its value.
unfoldable pub entry_of : Text → Option (Field × Text)
unfolding cut field_entry
entry_of line = field_entry (cut b':' line)

abbrev pub put_entry : Option (Field × Text) → AptListPackage → AptListPackage
unfolding put_field
put_entry none p = p
put_entry (some (f, value)) p = put_field f value p

-- The package after a line, and the packages that the line adds to the list.
abbrev pub after_line : Text → AptListPackage → AptListPackage
unfolding entry_of put_entry
after_line line p =
    if is_empty line
    then (if is_empty p.package_name then p else no_package)
    else put_entry (entry_of line) p

abbrev pub added_at : Text → AptListPackage → List AptListPackage
added_at line p = if is_empty line then (if is_empty p.package_name then [] else p ∷ []) else []

-- The loop over the lines of a file.
unfoldable pub scan_packages : AptListPackage → List Text → List AptListPackage
unfolding after_line
scan_packages p [] = []
scan_packages p (line ∷ lines) = added_at line p ++ scan_packages (after_line line p) lines

abbrev pub appended :
    Option (List Text) → Option (List AptListPackage) → Option (List AptListPackage)
unfolding scan_packages
appended none rest = none
appended (some lines) none = none
appended (some lines) (some packages) = some (scan_packages no_package lines ++ packages)

unfoldable pub build_packages_list :
    (Text → Option (List Text)) → List Text → Option (List AptListPackage)
unfolding appended
build_packages_list read [] = some []
build_packages_list read (file ∷ files) = appended (read file) (build_packages_list read files)

abbrev pub kept : {A : Type 0} → (A → Bool) → List A → List A
kept test [] = []
kept test (x ∷ xs) = if test x then x ∷ kept test xs else kept test xs

unfoldable pub is_hit : Text → Bool → AptListPackage → Bool
unfolding contains text_eq
is_hit q exact p = if exact then text_eq p.package_name q else contains p.package_name q

abbrev pub apt_search : Text → List AptListPackage → Bool → List AptListPackage
unfolding is_hit
apt_search q packages exact = kept (is_hit q exact) packages

unfoldable pub has_suffix : Text → Text → Bool
unfolding has_prefix
has_suffix s suffix = has_prefix (reverse s) (reverse suffix)

unfoldable pub is_packages_file : Text → Bool
unfolding has_suffix
is_packages_file name =
    has_suffix name (codes "_Packages") || has_suffix name (codes "_Packages.lz4")

-- The names in the directory, or `none` when it cannot be read.
abbrev pub get_repo_file_list : Option (List Text) → Option (List Text)
unfolding is_packages_file
get_repo_file_list none = none
get_repo_file_list (some names) = some (kept is_packages_file names)

abbrev pub listed : (Text → Option (List Text)) → Option (List Text) → Option (List AptListPackage)
unfolding build_packages_list
listed read none = none
listed read (some files) = build_packages_list read files

abbrev pub searched : Text → Option (List AptListPackage) → Option (List AptListPackage)
searched q none = none
searched q (some packages) = some (apt_search q packages false)

unfoldable pub apt_list_search :
    Option (List Text) → (Text → Option (List Text)) → Text → Option (List AptListPackage)
unfolding listed get_repo_file_list
apt_list_search names read q = searched q (listed read (get_repo_file_list names))
