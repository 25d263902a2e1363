-- ===== src/AsyncLogging/Valid.antt =====
-- The invariant of the logger: the assertions of the thread hold.
use conex.Prelude.{
  ℕ, ◌<◌, ◌≡◌, refl, sym, ap, ◌∙◌, ◌⊎◌, inl, inr, Bool, true, Option, none, some, List, [], ◌∷◌,
  ◌++◌, map, append_assoc, arith, length, take, flatten, Bytes,
}
use conex.FixedBuffer.{FixedBuffer}
use conex.FixedBuffer.Fill.{text}
use conex.AsyncLogging.{Place, AsyncLogging, begun, head, waiting, writing}

-- A buffer of that size with room for a byte, and one that is empty.
pub record IsBuffer (size : ℕ) (b : FixedBuffer) : Type 0 where
  pub inside : b.cur < length b.array
  pub size_is : length b.array ≡ size

pub record IsFresh (size : ℕ) (b : FixedBuffer) : Type 0 where
  pub empty : b.cur ≡ 0
  pub positive : 0 < size
  pub size_is : length b.array ≡ size

abbrev pub AreBuffers : ℕ → List FixedBuffer → Type 0
AreBuffers size [] = Unit {0}
AreBuffers size (b ∷ bs) = IsBuffer size b × AreBuffers size bs

abbrev pub IsCurrent : ℕ → Option FixedBuffer → Type 0
IsCurrent size none = ⊥
IsCurrent size (some b) = IsBuffer size b

abbrev pub IsSpare : ℕ → Option FixedBuffer → Type 0
IsSpare size none = ⊥
IsSpare size (some b) = IsFresh size b

-- The next buffer is there unless a full one waits.
abbrev pub IsNext : ℕ → Option FixedBuffer → List FixedBuffer → Type 0
IsNext size none buffers = 0 < length buffers
IsNext size (some b) buffers = IsFresh size b

-- Before the loop, at its head and in the wait both spare buffers are there. While it writes, the
-- first is missing, and if the second is, two buffers or more are being written.
abbrev pub IsWriter : ℕ → Option FixedBuffer → Option FixedBuffer → Place → Type 0
IsWriter size new1 new2 begun = IsSpare size new1 × IsSpare size new2
IsWriter size new1 new2 head = IsSpare size new1 × IsSpare size new2
IsWriter size new1 new2 waiting = IsSpare size new1 × IsSpare size new2
IsWriter size (some b) new2 (writing bs) = ⊥
IsWriter size none none (writing bs) = AreBuffers size bs × (1 < length bs)
IsWriter size none (some b) (writing bs) = IsFresh size b × AreBuffers size bs × (0 < length bs)

-- A thread that begins is to run, and can open its file.
abbrev pub Begins : Place → Bool → Bool → Type 0
Begins begun running file_opens = (running ≡ true) × (file_opens ≡ true)
Begins _ running file_opens = Unit {0}

pub record IsValid (size : ℕ) (s : AsyncLogging) : Type 0 where
  pub current_ok : IsCurrent size s.current_buffer
  pub next_ok : IsNext size s.next_buffer s.buffers
  pub buffers_ok : AreBuffers size s.buffers
  pub writer_ok : IsWriter size s.new_buffer1 s.new_buffer2 s.place
  pub begins_ok : Begins s.place s.running s.file_opens

abbrev pub texts : List FixedBuffer → Bytes
texts [] = []
texts (b ∷ bs) = text b ++ texts bs

abbrev pub text_of : Option FixedBuffer → Bytes
text_of none = []
text_of (some b) = text b

abbrev pub texts_of : Place → Bytes
texts_of begun = []
texts_of head = []
texts_of waiting = []
texts_of (writing bs) = texts bs

-- All that is in the logger: what the file has been given, what is being written, what waits.
abbrev pub logged : AsyncLogging → Bytes
logged s = flatten s.output ++ (texts_of s.place ++ (texts s.buffers ++ text_of s.current_buffer))

pub texts-append : (bs cs : List FixedBuffer) → texts (bs ++ cs) ≡ texts bs ++ texts cs
texts-append [] cs = refl
texts-append (b ∷ bs) cs =
    ap (λ xs. text b ++ xs) (texts-append bs cs) ∙ sym (append_assoc (text b) (texts bs) (texts cs))

pub flatten-texts : (bs : List FixedBuffer) → flatten (map text bs) ≡ texts bs
flatten-texts [] = refl
flatten-texts (b ∷ bs) = ap (λ xs. text b ++ xs) (flatten-texts bs)

pub AreBuffers-append :
    {size : ℕ} (bs : List FixedBuffer) (b : FixedBuffer)
    → AreBuffers size bs
    → IsBuffer size b
    → AreBuffers size (bs ++ b ∷ [])
AreBuffers-append [] b h k = (k, tt)
AreBuffers-append (c ∷ bs) b h k = (h.0, AreBuffers-append bs b h.1 k)

pub fresh_is_buffer : {size : ℕ} {b : FixedBuffer} → IsFresh size b → IsBuffer size b
fresh_is_buffer f = record { inside = omega arith; size_is = f.size_is }

pub fresh_text : {size : ℕ} {b : FixedBuffer} → IsFresh size b → text b ≡ []
fresh_text {size} {b} f = ap (λ n. take n b.array) f.empty

pub the_current :
    {size : ℕ} (o : Option FixedBuffer)
    → IsCurrent size o
    → (b : FixedBuffer) × (o ≡ some b) × IsBuffer size b
the_current none h = absurd h
the_current (some b) h = (b, refl, h)

pub the_spare :
    {size : ℕ} (o : Option FixedBuffer)
    → IsSpare size o
    → (b : FixedBuffer) × (o ≡ some b) × IsFresh size b
the_spare none h = absurd h
the_spare (some b) h = (b, refl, h)

pub Place-cases :
    (p : Place)
    → (p ≡ begun) ⊎ (p ≡ head) ⊎ (p ≡ waiting) ⊎ ((bs : List FixedBuffer) × (p ≡ writing bs))
Place-cases begun = inl refl
Place-cases head = inr (inl refl)
Place-cases waiting = inr (inr (inl refl))
Place-cases (writing bs) = inr (inr (inr (bs, refl)))
