-- ===== src/Histogram/Overflow.antt =====
-- day1/ex_histogram/modify_image.cpp: both programs leave the memory that they have.
