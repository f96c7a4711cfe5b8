-- ===== src/Claude/Paths.antt =====
-- The functions of path/filepath that the engine calls, on Unix paths.
use c_squad.Gitx.Texts.{split}
use c_squad.Base.{
  ◌≡◌, refl, Bool, ◌||◌, List, [], ◌∷◌, reverse, is_empty, has_prefix, filterb, not, if◌then◌else◌,
  Text, lit, text_eq, join,
}

-- A `..` takes the element before it away; at the start of a path that is not rooted it stays.
up : Bool → List Text → List Text
unfolding lit
up rooted [] = if rooted then [] else lit ".." ∷ []
up rooted (d ∷ done) = if text_eq d (lit "..") then lit ".." ∷ d ∷ done else done

after_part : Bool → List Text → Text → List Text
unfolding lit up
after_part rooted done p =
    if is_empty p || text_eq p (lit ".")
    then done
    else if text_eq p (lit "..")
    then up rooted done
    else p ∷ done

clean_parts : Bool → List Text → List Text → List Text
unfolding after_part
clean_parts rooted done [] = reverse done
clean_parts rooted done (p ∷ ps) = clean_parts rooted (after_part rooted done p) ps

unfoldable pub is_abs : Text → Bool
is_abs p = has_prefix p (lit "/")

-- filepath.Clean
unfoldable pub clean_path : Text → Text
unfolding clean_parts is_abs lit
clean_path p =
    let parts = clean_parts (is_abs p) [] (split p b'/') in
    if is_abs p
    then b'/' ∷ join parts (lit "/")
    else if is_empty parts
    then lit "."
    else join parts (lit "/")

-- filepath.Join
unfoldable pub join_path : List Text → Text
unfolding clean_path
join_path elems =
    let parts = filterb (λ e. not (is_empty e)) elems in
    if is_empty parts then [] else clean_path (join parts (lit "/"))

join_path_test : join_path (lit "/a/b" ∷ lit "../c/./d" ∷ []) ≡ lit "/a/c/d"
unfolding join_path lit split is_abs has_prefix join text_eq
join_path_test = refl
