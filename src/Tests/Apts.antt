-- ===== src/Tests/Apts.antt =====
-- apt's lists and the searches for PHP packages, at concrete inputs.

use gameapctl.Base.{
  List, Option, trim_space, trim_left, trim_right, is_space, ℕ, zero, suc, Bool, true, false, none,
  some, codes, text_eq, Text, [], ◌∷◌, ◌≡◌, refl, ◌≢◌,
}
use gameapctl.Apt.{
  Distribution, ubuntu, other, System, version, searching, nothing, php_versions, search_versions,
  find_version, install_all, php_packages,
}
use gameapctl.Apt.Strategy.{transform_pre_install_packages, install_apt_repositories_dependencies}
use gameapctl.Apt.Lists.{
  scan_packages, no_package, build_packages_list, entry_of, put_field, field_of, cut,
  AptListPackage,
}
use gameapctl.Apt.Lists.Paragraphs.{
  IsParagraph, layout, all_stated, stated, stated_from, last_of, IsLaidOut,
  build_packages_list-all_stated,
}
use gameapctl.Apt.Rounds.{IsAnswer, find_version-two_rounds, find_version-searching}

-- The states count the repositories that were added. With one there is PHP 8.1, and without none.
abbrev found_in : Text → ℕ → Bool
found_in p zero = false
found_in p (suc added) = text_eq p (codes "php8.1")

abbrev system_of : Distribution → System ℕ
system_of d = record {
  distribution = d;
  search = λ p added. (some (found_in p added), added);
  install = λ p added. (true, added);
  purge = λ p added. (true, added);
  add_apt_repository = λ added. (true, suc added);
  has_sources_list = λ added. false;
  write_sources_list = λ added. (true, added);
  download_key = λ added. (true, suc added);
  php_version = λ added. none;
}

find_version-8_1 : find_version (system_of ubuntu) 2 false 0 ≡ (version (codes "8.1"), 1)
unfolding find_version search_versions text_eq
find_version-8_1 = refl

transform-ubuntu :
    transform_pre_install_packages (system_of ubuntu) 2 (codes "curl" ∷ codes "php" ∷ []) [] 0
    ≡ (some (codes "curl" ∷ php_packages (codes "8.1")), 1)
unfolding transform_pre_install_packages install_apt_repositories_dependencies install_all
    find_version search_versions text_eq php_packages
transform-ubuntu = refl

ubuntu-is_known : (system_of ubuntu).distribution ≢ other
ubuntu-is_known = λ e. cc

find_version-two_rounds_example :
    (find_version (system_of ubuntu) (suc (suc 3)) false 0
      ≡ find_version (system_of ubuntu) 2 false 0)
    × IsAnswer (find_version (system_of ubuntu) 2 false 0).0
find_version-two_rounds_example =
    find_version-two_rounds (system_of ubuntu) ubuntu-is_known 3 false 0

-- A system whose searches find nothing.
abbrev empty_system : System ℕ
empty_system = record {
  distribution = other;
  search = λ p calls. (some false, suc calls);
  install = λ p calls. (true, calls);
  purge = λ p calls. (true, calls);
  add_apt_repository = λ calls. (true, calls);
  has_sources_list = λ calls. false;
  write_sources_list = λ calls. (true, calls);
  download_key = λ calls. (true, calls);
  php_version = λ calls. none;
}

none_found : (s : ℕ) → (search_versions empty_system php_versions s).0 ≡ nothing
unfolding search_versions
none_found s = refl

find_version-searching_example : (find_version empty_system 3 false 0).0 ≡ searching
find_version-searching_example = find_version-searching empty_system refl none_found 3 0

abbrev php_paragraph : List Text
php_paragraph =
    codes "Package: php8.1"
    ∷ codes "Version: 8.1.2"
    ∷ codes " with: text"
    ∷ codes "Depends: a, b"
    ∷ []

abbrev curl_paragraph : List Text
curl_paragraph = codes "Package: curl" ∷ codes "Size: 7" ∷ []

abbrev contents : Text → List (List Text)
contents file = php_paragraph ∷ curl_paragraph ∷ []

abbrev read : Text → Option (List Text)
unfolding layout
read file = some (layout (contents file))

abbrev curl : AptListPackage
curl = record no_package { package_name = codes "curl"; size = codes "7" }

scan_packages-curl : scan_packages no_package (layout (curl_paragraph ∷ [])) ≡ curl ∷ []
unfolding scan_packages layout entry_of put_field field_of cut text_eq trim_space trim_left
    trim_right is_space
scan_packages-curl = refl

-- Without an empty line at the end of the file the last package is lost.
scan_packages-lost : scan_packages no_package curl_paragraph ≡ []
unfolding scan_packages entry_of put_field field_of cut text_eq trim_space trim_left trim_right
    is_space
scan_packages-lost = refl

-- A paragraph without a name leaves its fields to the next.
scan_packages-leaked :
    scan_packages no_package (layout ((codes "Size: 7" ∷ []) ∷ (codes "Package: curl" ∷ []) ∷ []))
    ≡ curl ∷ []
unfolding scan_packages layout entry_of put_field field_of cut text_eq trim_space trim_left
    trim_right is_space
scan_packages-leaked = refl

contents-IsLaidOut : IsLaidOut read contents (codes "main")
unfolding IsLaidOut IsParagraph read stated stated_from last_of entry_of field_of cut text_eq
    trim_space trim_left trim_right is_space
contents-IsLaidOut = (
  refl,
  (
    (((λ e. cc), ((λ e. cc), ((λ e. cc), ((λ e. cc), tt)))), (λ e. cc)),
    ((((λ e. cc), ((λ e. cc), tt)), (λ e. cc)), tt),
  ),
)

build_packages_list-all_stated_example :
    build_packages_list read (codes "main" ∷ []) ≡ some (all_stated contents (codes "main" ∷ []))
build_packages_list-all_stated_example =
    build_packages_list-all_stated read contents (codes "main" ∷ []) (contents-IsLaidOut, tt)
