-- ===== src/Config/Checks/Variables.antt =====
-- The references of a value, and the diagnostics of check_variables.
use zwwm.Common.{ℕ, ◌≡◌, refl, arith, Bool, true, not, ◌&&◌, List, ◌++◌}
use zwwm.Config.{SourceLocation, Diagnostic, Value, Values, Fields, has_errors}
use zwwm.Config.Checks.{check_variables, check_values, check_in_fields}
use zwwm.Config.Checks.Ranges.{has_errors-append, has_errors-check}

-- Every reference in the value is defined.
unfoldable mutual
  pub all_defined : (List ℕ → Bool) → Value → Bool
  all_defined defined (Value.reference name) = defined name
  all_defined defined (Value.array vs) = values_defined defined vs
  all_defined defined (Value.list vs) = values_defined defined vs
  all_defined defined (Value.object fs) = fields_defined defined fs
  all_defined defined v = true

  pub values_defined : (List ℕ → Bool) → Values → Bool
  values_defined defined Values.nil = true
  values_defined defined (Values.cons v vs) = all_defined defined v && values_defined defined vs

  pub fields_defined : (List ℕ → Bool) → Fields → Bool
  fields_defined defined Fields.end = true
  fields_defined defined (Fields.field n v fs) = all_defined defined v && fields_defined defined fs

both_parts :
    (xs ys : List Diagnostic) (a b : Bool)
    → has_errors xs ≡ not a
    → has_errors ys ≡ not b
    → has_errors (xs ++ ys) ≡ not (a && b)
both_parts xs ys a b h k = ground (arith, has_errors-append xs ys)

mutual
  unfolding check_variables check_values check_in_fields all_defined values_defined fields_defined
      has_errors

  variables_lem :
      (defined : List ℕ → Bool) (l : SourceLocation) (v : Value)
      → has_errors (check_variables defined l v) ≡ not (all_defined defined v)
  variables_lem defined l (Value.reference name) = has_errors-check (defined name) l _
  variables_lem defined l (Value.array vs) = values_lem defined l vs
  variables_lem defined l (Value.list vs) = values_lem defined l vs
  variables_lem defined l (Value.object fs) = fields_lem defined l fs
  variables_lem defined l Value.null = refl
  variables_lem defined l (Value.text s) = refl
  variables_lem defined l (Value.boolean s) = refl
  variables_lem defined l (Value.integer s) = refl

  values_lem :
      (defined : List ℕ → Bool) (l : SourceLocation) (vs : Values)
      → has_errors (check_values defined l vs) ≡ not (values_defined defined vs)
  values_lem defined l Values.nil = refl
  values_lem defined l (Values.cons v vs) =
      both_parts (check_variables defined l v) (check_values defined l vs) (all_defined defined v)
        (values_defined defined vs) (variables_lem defined l v) (values_lem defined l vs)

  fields_lem :
      (defined : List ℕ → Bool) (l : SourceLocation) (fs : Fields)
      → has_errors (check_in_fields defined l fs) ≡ not (fields_defined defined fs)
  fields_lem defined l Fields.end = refl
  fields_lem defined l (Fields.field n v fs) =
      both_parts (check_variables defined l v) (check_in_fields defined l fs)
        (all_defined defined v) (fields_defined defined fs) (variables_lem defined l v)
        (fields_lem defined l fs)

-- check_variables reports an error exactly if some reference in the value is not defined.
pub check_variables-all_defined :
    (defined : List ℕ → Bool) (l : SourceLocation) (v : Value)
    → has_errors (check_variables defined l v) ≡ not (all_defined defined v)
check_variables-all_defined defined l v = variables_lem defined l v
