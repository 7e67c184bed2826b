-- ===== src/Security/Paths.antt =====
-- path/filepath's Clean, which security/linux/platform_linux.go applies to the path of a rule.
use Prim.Native.Char.{Char, code}
use Prim.Native.String.{◌++◌ as text_append}
use hanami.Base.{
  ◌==◌, Bool, ◌||◌, List, [], ◌∷◌, reverse, String, is_blank, str_eq, starts_with, if◌then◌else◌,
  ◌≡◌, refl,
}

abbrev put_char : Char → List String → List String
put_char c [] = String.◌∷◌ c "" ∷ []
put_char c (part ∷ parts) = String.◌∷◌ c part ∷ parts

-- The parts between the slashes.
unfoldable pub split_slash : String → List String
split_slash String.[] = "" ∷ []
split_slash (String.◌∷◌ c s) =
    let rest = split_slash s in if code c == 47 then "" ∷ rest else put_char c rest

unfoldable pub join_slash : List String → String
join_slash [] = ""
join_slash (part ∷ []) = part
join_slash (part ∷ next ∷ parts) = text_append part (text_append "/" (join_slash (next ∷ parts)))

-- One part back; above the root is the root.
abbrev pub back : Bool → List String → List String
back rooted [] = if rooted then [] else ".." ∷ []
back rooted (part ∷ parts) = if str_eq part ".." then ".." ∷ part ∷ parts else parts

abbrev pub next_parts : Bool → List String → String → List String
next_parts rooted parts part =
    if is_blank part || str_eq part "."
    then parts
    else if str_eq part ".."
    then back rooted parts
    else part ∷ parts

-- The last part first.
unfoldable pub clean_parts : Bool → List String → List String → List String
clean_parts rooted parts [] = parts
clean_parts rooted parts (part ∷ rest) = clean_parts rooted (next_parts rooted parts part) rest

unfoldable pub clean_path : String → String
unfolding split_slash join_slash clean_parts
clean_path path =
    let rooted = starts_with path "/" in
    let cleaned = join_slash (reverse (clean_parts rooted [] (split_slash path))) in
    if rooted then text_append "/" cleaned else if is_blank cleaned then "." else cleaned

pub cleaned_null : clean_path "/dev/null" ≡ "/dev/null"
unfolding clean_path split_slash join_slash clean_parts
cleaned_null = refl

cleaned_root : clean_path "//" ≡ "/"
unfolding clean_path split_slash join_slash clean_parts
cleaned_root = refl

cleaned_dots : clean_path "/usr/../etc/./x//" ≡ "/etc/x"
unfolding clean_path split_slash join_slash clean_parts
cleaned_dots = refl

cleaned_relative : clean_path "a/../../b" ≡ "../b"
unfolding clean_path split_slash join_slash clean_parts
cleaned_relative = refl
