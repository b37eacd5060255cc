-- ===== src/Student.antt =====
-- main.cpp: a vector of students, made in three ways, and what the constructor prints.
use net_module.Base.{ℕ, ◌≡◌, refl, List, [], ◌∷◌, ◌++◌}
use net_module.Base.Text.{decimal, digits}

-- `Student`, its name as bytes.
pub record Student : Type 0 where
  pub age : ℕ
  pub name : List ℕ

-- The vector, and what was printed.
pub record Printed : Type 0 where
  pub students : List Student
  pub output : List ℕ

-- `printf("age = %d , name = %s", ...)`.
unfoldable pub line : Student → List ℕ
line s =
    97 ∷ 103 ∷ 101 ∷ 32 ∷ 61 ∷ 32 ∷ []
    ++ decimal s.age
    ++ 32 ∷ 44 ∷ 32 ∷ 110 ∷ 97 ∷ 109 ∷ 101 ∷ 32 ∷ 61 ∷ 32 ∷ []
    ++ s.name

-- A student is constructed, which prints, and ends at the back of the vector. Copies and moves, which
-- `push_back` and a growing vector make, print nothing.
unfoldable pub add_student : ℕ → List ℕ → Printed → Printed
unfolding line
add_student age name p = record {
  students = p.students ++ (record { age = age; name = name }) ∷ [];
  output = p.output ++ line (record { age = age; name = name });
}

-- The name of each student, in UTF-8.
abbrev xiao_yang : List ℕ
xiao_yang = 0xe5 ∷ 0xb0 ∷ 0x8f ∷ 0xe6 ∷ 0x9d ∷ 0xa8 ∷ []

-- `main`: a temporary that is pushed, arguments that are forwarded, and a temporary that is forwarded.
unfoldable pub three_students : Printed
three_students =
    add_student 13 xiao_yang
      (add_student 13 xiao_yang (add_student 13 xiao_yang (record { students = []; output = [] })))

-- All three ways give the same student.
same_students :
    three_students.students
    ≡ (record { age = 13; name = xiao_yang })
      ∷ (record { age = 13; name = xiao_yang })
      ∷ (record { age = 13; name = xiao_yang })
      ∷ []
unfolding three_students add_student
same_students = refl

-- The first line.
first_line :
    line (record { age = 13; name = xiao_yang })
    ≡ 97 ∷ 103 ∷ 101 ∷ 32 ∷ 61 ∷ 32 ∷ 49 ∷ 51 ∷ 32 ∷ 44 ∷ 32 ∷ 110 ∷ 97 ∷ 109 ∷ 101 ∷ 32 ∷ 61 ∷ 32
      ∷ xiao_yang
unfolding line digits
first_line = refl
