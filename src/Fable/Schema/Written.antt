-- ===== src/Fable/Schema/Written.antt =====
-- What a configuration says is to be written into an object, apart from the code that does so.
use cloe.Prelude.{◌≡◌, none, some, List, [], ◌∷◌, ◌++◌, map, if◌then◌else◌}
use cloe.Prelude.Texts.{Text, find_text}
use cloe.Fable.Json.{Json, items, elements}
use cloe.Fable.Schema.Containers.{Vector}
use cloe.Fable.Schema.Values.{ok, Prototype}
use cloe.Fable.Schema.Objects.{Pointer, Interface, pointed, vector_at, StructObject, struct_at}

-- What is set is what is there, and the last one is.
pub record IsLens {S T : Type 0} (ptr : Pointer S T) : Type 0 where
  pub get-set : (x : T) (s : S) → ptr.get (ptr.set x s) ≡ x
  pub set-get : (s : S) → ptr.set (ptr.get s) s ≡ s
  pub set-set : (x y : T) (s : S) → ptr.set y (ptr.set x s) ≡ ptr.set y s

-- A value is put where the pointer points to; the values of an array, in their order, in place of
-- those of a vector or behind them; and a struct gets the members of an object one after the other,
-- where a member that names no property writes nothing.
mutual
  pub data Assigned {S : Type 0} : Interface S → Json → S → S → Type 1 where
    set_value :
        {T : Type 0} (ptr : Pointer S T) (p : Prototype T) (c : Json) (s : S) (x : T)
        → p.deserialize c ≡ ok x
        → Assigned (pointed ptr p) c s (ptr.set x s)
    set_vector :
        {T : Type 0} (ptr : Pointer S (List T)) (v : Vector) (p : Prototype T) (c : Json) (s : S)
        (xs : List T)
        → map p.deserialize (elements c) ≡ map ok xs
        → Assigned
            (vector_at ptr v p)
            c
            s
            (ptr.set ((if v.option_extend then ptr.get s else []) ++ xs) s)
    set_struct :
        (o : StructObject S) (c : Json) (s s' : S)
        → Written o.properties (items c) s s'
        → Assigned (struct_at o) c s s'

  pub data Written {S : Type 0}
      : List (Text × Interface S) → List (Text × Json) → S → S → Type 1 where
    no_member : (ps : List (Text × Interface S)) (s : S) → Written ps [] s s
    further_member :
        (ps : List (Text × Interface S)) (k : Text) (c : Json) (cs : List (Text × Json))
        (s s' s'' : S) (i : Interface S)
        → find_text k ps ≡ some i
        → Assigned i c s s'
        → Written ps cs s' s''
        → Written ps ((k, c) ∷ cs) s s''
    skipped_member :
        (ps : List (Text × Interface S)) (k : Text) (c : Json) (cs : List (Text × Json)) (s s' : S)
        → find_text k ps ≡ none
        → Written ps cs s s'
        → Written ps ((k, c) ∷ cs) s s'
