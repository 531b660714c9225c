-- ===== src/Outbox/Lines.antt =====
-- gateway/app/metering.py: what the outbox reads back after an append, a crash and a compaction.
use mathlib.Core.List.{append-nil}
use mlops_lite.Base.{
  ℕ, List, [], ◌∷◌, ◌++◌, Option, none, some, Bool, true, ◌&&◌, ◌≡◌, refl, map, select, any, every,
  any-append, every-append, arith,
}
use mlops_lite.Outbox.File.{
  Entry, Line, parsed, unparseable, File, after_fragment, append, tear, readable, last_line,
  entries, is_pending, compact,
}

pub readable-append : (xs ys : List Line) → readable (xs ++ ys) ≡ readable xs ++ readable ys
unfolding readable
readable-append [] ys = refl
readable-append (parsed e ∷ xs) ys = cc (readable-append xs ys)
readable-append (unparseable ∷ xs) ys = readable-append xs ys

pub readable-map : (es : List Entry) → readable (map parsed es) ≡ es
unfolding readable
readable-map [] = refl
readable-map (e ∷ es) = cc (readable-map es)

-- What a compaction keeps.
pub readable-compact :
    (done : List ℕ) (f : File)
    → readable (compact done f).lines ≡ select (is_pending done) (entries f)
unfolding compact
readable-compact done f = readable-map (select (is_pending done) (entries f))

pub entries-compact :
    (done : List ℕ) (f : File) → entries (compact done f) ≡ select (is_pending done) (entries f)
unfolding compact entries readable
entries-compact done f =
    rw
      (
        readable-append (map parsed (select (is_pending done) (entries f))) [],
        append-nil (readable (map parsed (select (is_pending done) (entries f)))),
      )
      (readable-map (select (is_pending done) (entries f)))

-- A test of all that is read, and of what is read from whole lines.
pub every-entries :
    (test : Entry → Bool) (f : File)
    → every test (entries f)
      ≡ (every test (readable f.lines) && every test (readable (last_line f.fragment)))
unfolding entries
every-entries test f =
    rw (readable-append f.lines (last_line f.fragment))
      (every-append test (readable f.lines) (readable (last_line f.fragment)))

-- What an append adds: nothing if it stands behind a fragment.
abbrev pub added : Option Line → Entry → List Entry
added none e = e ∷ []
added (some _) e = []

readable-after_fragment :
    (part : Option Line) (e : Entry) → readable (after_fragment part (parsed e) ∷ []) ≡ added part e
unfolding readable
readable-after_fragment none e = refl
readable-after_fragment (some _) e = refl

pub readable-append_entry :
    (e : Entry) (f : File) → readable (append e f).lines ≡ readable f.lines ++ added f.fragment e
unfolding append
readable-append_entry e f =
    rw (readable-append f.lines (after_fragment f.fragment (parsed e) ∷ []))
      (cc (readable-after_fragment f.fragment e))

pub fragment-append : (e : Entry) (f : File) → (append e f).fragment ≡ none
unfolding append
fragment-append e f = refl

every-added :
    (test : Entry → Bool) (part : Option Line) (e : Entry)
    → test e ≡ true
    → every test (added part e) ≡ true
every-added test none e t = ground arith
every-added test (some _) e t = refl

pub every-append_entry :
    (test : Entry → Bool) (e : Entry) (f : File)
    → every test (entries f) ≡ true
    → test e ≡ true
    → every test (entries (append e f)) ≡ true
unfolding readable
every-append_entry test e f h t = ground (
  arith,
  every-entries test f,
  every-entries test (append e f),
  readable-append_entry e f,
  fragment-append e f,
  every-append test (readable f.lines) (added f.fragment e),
  every-added test f.fragment e t,
)

-- An entry on a whole line stays there.
pub any-append_entry :
    (test : Entry → Bool) (e : Entry) (f : File)
    → any test (readable f.lines) ≡ true
    → any test (readable (append e f).lines) ≡ true
any-append_entry test e f h =
    ground
      (arith, readable-append_entry e f, any-append test (readable f.lines) (added f.fragment e))

pub every-tear :
    (test : Entry → Bool) (part : Line) (f : File)
    → every test (entries f) ≡ true
    → every test (readable (part ∷ [])) ≡ true
    → every test (entries (tear part f)) ≡ true
unfolding tear readable
every-tear test part f h t = ground (arith, every-entries test f, every-entries test (tear part f))

pub any-entries :
    (test : Entry → Bool) (f : File)
    → any test (readable f.lines) ≡ true
    → any test (entries f) ≡ true
unfolding entries
any-entries test f h =
    rw (readable-append f.lines (last_line f.fragment))
      (ground (arith, any-append test (readable f.lines) (readable (last_line f.fragment))))
