-- ===== src/Tools/Scan/Objects.antt =====
-- `extractFirstJSON` on texts that hold an object, given by its parts.
use krellin.Prelude.{
  ℕ, suc, ◌+◌, ◌-◌, ◌≡◌, refl, sym, ap, ◌∙◌, ◌≢◌, true, false, Option, some, List, [], ◌∷◌, ◌++◌,
  arith, append_assoc, ==_of_ne,
}
use krellin.Prelude.Text.{Text}
use krellin.Prelude.Text.Trim.{trim_space-braces}
use krellin.Tools.Scan.{
  open_brace, close_brace, quote, backslash, from_brace, push, scan, extract_first_json,
}
use krellin.Tools.Scan.Laws.{extract_found}

-- What stands in a string: a byte that is neither a quote nor a backslash, or an escaped byte.
pub data Piece : Type 0 where
  byte : (c : ℕ) → c ≢ quote → c ≢ backslash → Piece
  escaped : ℕ → Piece

-- What stands in an object: bytes outside strings, strings, objects.
mutual
  pub data Item : Type 0 where
    other : (c : ℕ) → c ≢ quote → c ≢ open_brace → c ≢ close_brace → Item
    string : List Piece → Item
    object : Items → Item

  pub data Items : Type 0 where
    nil : Items
    cons : Item → Items → Items

abbrev print_pieces : List Piece → Text
print_pieces [] = []
print_pieces (byte c _ _ ∷ ps) = c ∷ print_pieces ps
print_pieces (escaped c ∷ ps) = backslash ∷ c ∷ print_pieces ps

mutual
  print_item : Item → Text
  print_item (other c _ _ _) = c ∷ []
  print_item (string ps) = quote ∷ (print_pieces ps ++ quote ∷ [])
  print_item (object is) = open_brace ∷ (print_items is ++ close_brace ∷ [])

  print_items : Items → Text
  print_items nil = []
  print_items (cons i is) = print_item i ++ print_items is

-- The text of an object.
unfoldable pub print_object : Items → Text
unfolding print_items
print_object is = open_brace ∷ (print_items is ++ close_brace ∷ [])

-- Reads a text and goes on.
abbrev after_text : Text → Option Text → Option Text
after_text [] o = o
after_text (c ∷ s) o = push c (after_text s o)

after_text-append :
    (s t : Text) (o : Option Text) → after_text (s ++ t) o ≡ after_text s (after_text t o)
after_text-append [] t o = refl
after_text-append (c ∷ s) t o = ap (push c) (after_text-append s t o)

after_text-some : (s r : Text) → after_text s (some r) ≡ some (s ++ r)
after_text-some [] r = refl
after_text-some (c ∷ s) r = ap (push c) (after_text-some s r)

scan-pieces :
    (depth : ℕ) (ps : List Piece) (t : Text)
    → scan depth true false (print_pieces ps ++ t)
      ≡ after_text (print_pieces ps) (scan depth true false t)
unfolding scan
scan-pieces depth [] t = refl
scan-pieces depth (byte c q b ∷ ps) t =
    rw (==_of_ne c quote q, ==_of_ne c backslash b) (ap (push c) (scan-pieces depth ps t))
scan-pieces depth (escaped c ∷ ps) t = ap (λ o. push backslash (push c o)) (scan-pieces depth ps t)

-- The steps at each kind of byte outside strings.
scan_other :
    (d c : ℕ) (t : Text)
    → c ≢ quote
    → c ≢ open_brace
    → c ≢ close_brace
    → scan d false false (c ∷ t) ≡ push c (scan d false false t)
unfolding scan
scan_other d c t q o k = rw (==_of_ne c quote q, ==_of_ne c open_brace o, ==_of_ne c close_brace k)

scan-quote : (d : ℕ) (t : Text) → scan d false false (quote ∷ t) ≡ push quote (scan d true false t)
unfolding scan
scan-quote d t = refl

scan_unquote :
    (d : ℕ) (t : Text) → scan d true false (quote ∷ t) ≡ push quote (scan d false false t)
unfolding scan
scan_unquote d t = refl

scan_open :
    (d : ℕ) (t : Text)
    → scan d false false (open_brace ∷ t) ≡ push open_brace (scan (suc d) false false t)
unfolding scan
scan_open d t =
    let e : d + 1 ≡ suc d = omega arith in ap (λ n. push open_brace (scan n false false t)) e

scan_inner_close :
    (d : ℕ) (t : Text)
    → scan (suc (suc d)) false false (close_brace ∷ t)
      ≡ push close_brace (scan (suc d) false false t)
unfolding scan
scan_inner_close d t = let e : suc (suc d) - 1 ≡ suc d = omega arith in rw e (ground arith)

scan_last_close : (t : Text) → scan 1 false false (close_brace ∷ t) ≡ some (close_brace ∷ [])
unfolding scan
scan_last_close t = refl

-- A text in closed brackets of two bytes.
after_text-closed :
    (a b : ℕ) (s : Text) (o : Option Text)
    → after_text (a ∷ (s ++ b ∷ [])) o ≡ push a (after_text s (push b o))
after_text-closed a b s o = ap (push a) (after_text-append s (b ∷ []) o)

mutual
  unfolding print_items

  scan-item :
      (d : ℕ) (i : Item) (t : Text)
      → scan (suc d) false false (print_item i ++ t)
        ≡ after_text (print_item i) (scan (suc d) false false t)
  scan-item d (other c q o k) t = scan_other (suc d) c t q o k
  scan-item d (string ps) t =
      scan-quote (suc d) ((print_pieces ps ++ quote ∷ []) ++ t)
      ∙ ap (λ s. push quote (scan (suc d) true false s))
          (append_assoc (print_pieces ps) (quote ∷ []) t)
      ∙ ap (push quote) (scan-pieces (suc d) ps (quote ∷ t))
      ∙ ap (λ o. push quote (after_text (print_pieces ps) o)) (scan_unquote (suc d) t)
      ∙ sym (after_text-closed quote quote (print_pieces ps) (scan (suc d) false false t))
  scan-item d (object is) t =
      scan_open (suc d) ((print_items is ++ close_brace ∷ []) ++ t)
      ∙ ap (λ s. push open_brace (scan (suc (suc d)) false false s))
          (append_assoc (print_items is) (close_brace ∷ []) t)
      ∙ ap (push open_brace) (scan-items (suc d) is (close_brace ∷ t))
      ∙ ap (λ o. push open_brace (after_text (print_items is) o)) (scan_inner_close d t)
      ∙ sym (after_text-closed open_brace close_brace (print_items is) (scan (suc d) false false t))

  scan-items :
      (d : ℕ) (is : Items) (t : Text)
      → scan (suc d) false false (print_items is ++ t)
        ≡ after_text (print_items is) (scan (suc d) false false t)
  scan-items d nil t = refl
  scan-items d (cons i is) t =
      ap (scan (suc d) false false) (append_assoc (print_item i) (print_items is) t)
      ∙ scan-item d i (print_items is ++ t)
      ∙ ap (after_text (print_item i)) (scan-items d is t)
      ∙ sym (after_text-append (print_item i) (print_items is) (scan (suc d) false false t))

scan-object :
    (is : Items) (after : Text)
    → scan 0 false false (print_object is ++ after) ≡ some (print_object is)
unfolding print_object
scan-object is after =
    scan_open 0 ((print_items is ++ close_brace ∷ []) ++ after)
    ∙ ap (λ s. push open_brace (scan 1 false false s))
        (append_assoc (print_items is) (close_brace ∷ []) after)
    ∙ ap (push open_brace) (scan-items 0 is (close_brace ∷ after))
    ∙ ap (λ o. push open_brace (after_text (print_items is) o)) (scan_last_close after)
    ∙ ap (push open_brace) (after_text-some (print_items is) (close_brace ∷ []))

-- The text holds no opening brace.
abbrev IsBraceless : Text → Type 0
IsBraceless [] = Unit
IsBraceless (c ∷ s) = (c ≢ open_brace) × IsBraceless s

from_brace-append :
    (before s : Text)
    → IsBraceless before
    → from_brace (before ++ open_brace ∷ s) ≡ some (open_brace ∷ s)
unfolding from_brace
from_brace-append [] s h = refl
from_brace-append (c ∷ before) s (h, k) =
    rw (==_of_ne c open_brace h) (from_brace-append before s k)

-- A balanced object is extracted whole, whatever follows it and whatever comes before it, if that
-- has no opening brace.
pub extract_first_json-print_object :
    (before after : Text) (is : Items)
    → IsBraceless before
    → extract_first_json (before ++ (print_object is ++ after)) ≡ print_object is
extract_first_json-print_object before after is h =
    extract_found (before ++ (print_object is ++ after)) (print_object is ++ after)
      (print_object is) (unfold print_object in from_brace-append before _ h) (scan-object is after)
      (unfold print_object in
        trim_space-braces (print_items is ++ close_brace ∷ []) (open_brace ∷ print_items is) _ refl
          refl)
