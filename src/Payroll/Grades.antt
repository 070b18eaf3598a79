-- ===== src/Payroll/Grades.antt =====
-- backend/app/services/standard_remuneration.py: the two grade tables. A row is the grade, the
-- standard monthly remuneration, its lower bound and, where there is one, its upper bound, in yen.
use k_aikei.Prelude.{ℕ, Option, none, some, List, [], ◌∷◌}

abbrev pub GradeRow : Type 0
GradeRow = ℕ × ℕ × ℕ × Option ℕ

-- PENSION_GRADE_TABLE
abbrev pub pension_grade_table : List GradeRow
pension_grade_table =
    (1, 88000, 0, some 93000)
    ∷ (2, 98000, 93000, some 101000)
    ∷ (3, 104000, 101000, some 107000)
    ∷ (4, 110000, 107000, some 114000)
    ∷ (5, 118000, 114000, some 122000)
    ∷ (6, 126000, 122000, some 130000)
    ∷ (7, 134000, 130000, some 138000)
    ∷ (8, 142000, 138000, some 146000)
    ∷ (9, 150000, 146000, some 155000)
    ∷ (10, 160000, 155000, some 165000)
    ∷ (11, 170000, 165000, some 175000)
    ∷ (12, 180000, 175000, some 185000)
    ∷ (13, 190000, 185000, some 195000)
    ∷ (14, 200000, 195000, some 210000)
    ∷ (15, 220000, 210000, some 230000)
    ∷ (16, 240000, 230000, some 250000)
    ∷ (17, 260000, 250000, some 270000)
    ∷ (18, 280000, 270000, some 290000)
    ∷ (19, 300000, 290000, some 310000)
    ∷ (20, 320000, 310000, some 330000)
    ∷ (21, 340000, 330000, some 350000)
    ∷ (22, 360000, 350000, some 370000)
    ∷ (23, 380000, 370000, some 395000)
    ∷ (24, 410000, 395000, some 425000)
    ∷ (25, 440000, 425000, some 455000)
    ∷ (26, 470000, 455000, some 485000)
    ∷ (27, 500000, 485000, some 515000)
    ∷ (28, 530000, 515000, some 545000)
    ∷ (29, 560000, 545000, some 575000)
    ∷ (30, 590000, 575000, some 605000)
    ∷ (31, 620000, 605000, some 635000)
    ∷ (32, 650000, 635000, none)
    ∷ []

-- HEALTH_GRADE_TABLE
abbrev pub health_grade_table : List GradeRow
health_grade_table =
    (1, 58000, 0, some 63000)
    ∷ (2, 68000, 63000, some 73000)
    ∷ (3, 78000, 73000, some 83000)
    ∷ (4, 88000, 83000, some 93000)
    ∷ (5, 98000, 93000, some 101000)
    ∷ (6, 104000, 101000, some 107000)
    ∷ (7, 110000, 107000, some 114000)
    ∷ (8, 118000, 114000, some 122000)
    ∷ (9, 126000, 122000, some 130000)
    ∷ (10, 134000, 130000, some 138000)
    ∷ (11, 142000, 138000, some 146000)
    ∷ (12, 150000, 146000, some 155000)
    ∷ (13, 160000, 155000, some 165000)
    ∷ (14, 170000, 165000, some 175000)
    ∷ (15, 180000, 175000, some 185000)
    ∷ (16, 190000, 185000, some 195000)
    ∷ (17, 200000, 195000, some 210000)
    ∷ (18, 220000, 210000, some 230000)
    ∷ (19, 240000, 230000, some 250000)
    ∷ (20, 260000, 250000, some 270000)
    ∷ (21, 280000, 270000, some 290000)
    ∷ (22, 300000, 290000, some 310000)
    ∷ (23, 320000, 310000, some 330000)
    ∷ (24, 340000, 330000, some 350000)
    ∷ (25, 360000, 350000, some 370000)
    ∷ (26, 380000, 370000, some 395000)
    ∷ (27, 410000, 395000, some 425000)
    ∷ (28, 440000, 425000, some 455000)
    ∷ (29, 470000, 455000, some 485000)
    ∷ (30, 500000, 485000, some 515000)
    ∷ (31, 530000, 515000, some 545000)
    ∷ (32, 560000, 545000, some 575000)
    ∷ (33, 590000, 575000, some 605000)
    ∷ (34, 620000, 605000, some 635000)
    ∷ (35, 650000, 635000, some 665000)
    ∷ (36, 680000, 665000, some 695000)
    ∷ (37, 710000, 695000, some 730000)
    ∷ (38, 750000, 730000, some 770000)
    ∷ (39, 790000, 770000, some 810000)
    ∷ (40, 830000, 810000, some 855000)
    ∷ (41, 880000, 855000, some 905000)
    ∷ (42, 930000, 905000, some 955000)
    ∷ (43, 980000, 955000, some 1005000)
    ∷ (44, 1030000, 1005000, some 1055000)
    ∷ (45, 1090000, 1055000, some 1115000)
    ∷ (46, 1150000, 1115000, some 1175000)
    ∷ (47, 1210000, 1175000, some 1235000)
    ∷ (48, 1270000, 1235000, some 1295000)
    ∷ (49, 1330000, 1295000, some 1355000)
    ∷ (50, 1390000, 1355000, none)
    ∷ []
